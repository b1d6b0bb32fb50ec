-- ===== src/Config/Tests.antt =====
-- A configuration that leaves most settings out.
use ttest.Config.Samples.{sparse, parses_level, info-parses}
use ttest.Config.Defaults.{apply_defaults}
use ttest.Config.Validity.{IsValid, apply_defaults-IsValid}

apply_defaults-IsValid_example : IsValid parses_level (apply_defaults parses_level sparse)
apply_defaults-IsValid_example = apply_defaults-IsValid parses_level info-parses sparse
