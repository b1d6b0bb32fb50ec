-- ===== src/Sniffer/Accounting.antt =====
-- No traffic is lost or counted twice.
use ttest.Prelude.{
  ℕ, ◌+◌, ◌%◌, ◌^◌, ◌<◌, ◌≡◌, ◌≢◌, refl, sym, ◌∙◌, ap, List, [], ◌∷◌, ◌++◌, arith, ◌==◌,
  if◌then◌else◌, All, append_assoc, append-nil,
}
use ttest.Sniffer.Store.{
  PortUsage, LogFile, missing, unreadable, malformed, stored, Usage, add_usage, add_or_update_port,
  assign, assign_all, add_all, total, collect_usage_data, save_usage_data, save_with, whole,
}

-- The traffic of port `p` in a list of entries.
abbrev pub sum_at : ℕ → List PortUsage → ℕ
sum_at p [] = 0
sum_at p (e ∷ m) = (if e.port == p then e.usage else 0) + sum_at p m

sum_at-add_usage :
    (p : ℕ) (u : PortUsage) (m : List PortUsage)
    → sum_at p (add_usage u m) % 2 ^ 64 ≡ (sum_at p (u ∷ []) + sum_at p m) % 2 ^ 64
unfolding add_usage
sum_at-add_usage p u [] = ground arith
sum_at-add_usage p u (e ∷ m) = ground (arith, sum_at-add_usage p u m)

sum_at-add_all :
    (p : ℕ) (us m : List PortUsage)
    → sum_at p (add_all us m) % 2 ^ 64 ≡ (sum_at p us + sum_at p m) % 2 ^ 64
unfolding add_all
sum_at-add_all p [] m = omega arith
sum_at-add_all p (u ∷ us) m =
    omega (arith, sum_at-add_all p us (add_usage u m), sum_at-add_usage p u m)

abbrev pub Absent : ℕ → List PortUsage → Type 0
Absent p = All (λ e. e.port ≢ p)

-- Each port has one entry.
abbrev pub IsUnique : List PortUsage → Type 0
IsUnique [] = Unit
IsUnique (e ∷ m) = Absent e.port m × IsUnique m

assign-Absent : (u : PortUsage) (m : List PortUsage) → Absent u.port m → assign u m ≡ m ++ (u ∷ [])
unfolding assign
assign-Absent u [] a = refl
assign-Absent u (e ∷ m) a = ground (arith, a.0, assign-Absent u m a.1)

Absent-of_unique :
    (m us : List PortUsage) (u : PortUsage) → IsUnique (m ++ (u ∷ us)) → Absent u.port m
Absent-of_unique [] us u a = tt
Absent-of_unique (e ∷ m) us u a = (λ s. clash m (sym s) a.0, Absent-of_unique m us u a.1)
  where
    clash : (l : List PortUsage) → u.port ≡ e.port → Absent e.port (l ++ (u ∷ us)) → ⊥
    clash [] s b = b.0 s
    clash (x ∷ l) s b = clash l s b.1

assign_all-append : (us m : List PortUsage) → IsUnique (m ++ us) → assign_all us m ≡ m ++ us
unfolding assign_all
assign_all-append [] m a = sym (append-nil m)
assign_all-append (u ∷ us) m a =
    ap (assign_all us) (assign-Absent u m (Absent-of_unique m us u a))
    ∙ assign_all-append us (m ++ (u ∷ [])) (rw (append_assoc m (u ∷ []) us) a)
    ∙ append_assoc m (u ∷ []) us

Absent-add_usage :
    (p : ℕ) (u : PortUsage) (m : List PortUsage)
    → u.port ≢ p
    → Absent p m
    → Absent p (add_usage u m)
unfolding add_usage
Absent-add_usage p u [] n a = (n, tt)
Absent-add_usage p u (e ∷ m) n a = ground (arith, Absent-add_usage p u m n a.1)

add_usage-IsUnique : (u : PortUsage) (m : List PortUsage) → IsUnique m → IsUnique (add_usage u m)
unfolding add_usage
add_usage-IsUnique u [] a = (tt, tt)
add_usage-IsUnique u (e ∷ m) a =
    ground (arith, add_usage-IsUnique u m a.1, Absent-add_usage e.port u m)

add_all-IsUnique : (us m : List PortUsage) → IsUnique m → IsUnique (add_all us m)
unfolding add_all
add_all-IsUnique [] m a = a
add_all-IsUnique (u ∷ us) m a = add_all-IsUnique us (add_usage u m) (add_usage-IsUnique u m a)

-- The file as the program writes it, or not there yet.
abbrev pub IsHealthyLog : LogFile → Type 0
IsHealthyLog missing = Unit
IsHealthyLog unreadable = ⊥
IsHealthyLog malformed = ⊥
IsHealthyLog (stored us) = IsUnique us

abbrev pub entries : LogFile → List PortUsage
entries (stored us) = us
entries _ = []

-- All traffic of a port that the program knows of.
abbrev pub traffic : ℕ → Usage → ℕ
traffic p s = sum_at p (entries s.log_file) + sum_at p s.data_store

-- The state after a save that succeeds.
abbrev saved : LogFile → Usage → Usage
saved f s =
    let merged = add_all s.data_store (entries f) in
    record { data_store = []; total_traffic = total merged; log_file = stored merged }

save_with_lem : (f : LogFile) (s : Usage) → IsHealthyLog f → save_with whole f s ≡ saved f s
unfolding collect_usage_data assign_all
save_with_lem missing s h = refl
save_with_lem unreadable s h = absurd h
save_with_lem malformed s h = absurd h
save_with_lem (stored us) s h = rw (assign_all-append us [] h)

save_lem : (s : Usage) → IsHealthyLog s.log_file → save_usage_data whole s ≡ saved s.log_file s
unfolding save_usage_data
save_lem s h = save_with_lem s.log_file s h

pub save-healthy :
    (s : Usage) → IsHealthyLog s.log_file → IsHealthyLog (save_usage_data whole s).log_file
save-healthy s h = rw (save_lem s h) (add_all-IsUnique s.data_store _ (unique s.log_file h))
  where
    unique : (f : LogFile) → IsHealthyLog f → IsUnique (entries f)
    unique missing h' = tt
    unique unreadable h' = absurd h'
    unique malformed h' = absurd h'
    unique (stored us) h' = h'

-- A save moves the counters to the file and adds them to what is there: the traffic of each port,
-- as a 64-bit number, is neither lost nor counted twice, and the counters start afresh.
pub save-traffic :
    (p : ℕ) (s : Usage)
    → IsHealthyLog s.log_file
    → (traffic p (save_usage_data whole s) % 2 ^ 64 ≡ traffic p s % 2 ^ 64)
      × ((save_usage_data whole s).data_store ≡ [])
save-traffic p s h =
    rw (save_lem s h) (omega (arith, sum_at-add_all p s.data_store (entries s.log_file)), refl)

add-traffic :
    (p q n : ℕ) (s : Usage)
    → traffic p (add_or_update_port q n s) % 2 ^ 64
      ≡ ((if q == p then n else 0) + traffic p s) % 2 ^ 64
unfolding add_or_update_port
add-traffic p q n s =
    omega (arith, sum_at-add_usage p (record { port = q; usage = n }) s.data_store)

-- What happens to the accounting: bytes pass a port, or the counters are saved.
pub data TrafficEvent : Type 0 where
  seen : ℕ → ℕ → TrafficEvent
  save : TrafficEvent

abbrev pub on_traffic : TrafficEvent → Usage → Usage
on_traffic (seen p n) s = add_or_update_port p n s
on_traffic save s = save_usage_data whole s

abbrev pub account : List TrafficEvent → Usage → Usage
account [] s = s
account (e ∷ es) s = account es (on_traffic e s)

abbrev pub seen_at : ℕ → List TrafficEvent → ℕ
seen_at p [] = 0
seen_at p (seen q n ∷ es) = (if q == p then n else 0) + seen_at p es
seen_at p (save ∷ es) = seen_at p es

on_traffic-healthy :
    (e : TrafficEvent) (s : Usage)
    → IsHealthyLog s.log_file
    → IsHealthyLog (on_traffic e s).log_file
on_traffic-healthy (seen p n) s h = unfold add_or_update_port in h
on_traffic-healthy save s h = save-healthy s h

-- However reports of traffic and saves that succeed are interleaved, if the log file is missing or
-- has one entry per port: file and counters together hold, for each port, what was known at the
-- start and all that was reported since, as a 64-bit number.
pub account-traffic :
    (p : ℕ) (es : List TrafficEvent) (s : Usage)
    → IsHealthyLog s.log_file
    → traffic p (account es s) % 2 ^ 64 ≡ (seen_at p es + traffic p s) % 2 ^ 64
account-traffic p [] s h = omega arith
account-traffic p (seen q n ∷ es) s h = omega (
  arith,
  account-traffic p es (add_or_update_port q n s) (on_traffic-healthy (seen q n) s h),
  add-traffic p q n s,
)
account-traffic p (save ∷ es) s h = omega (
  arith,
  account-traffic p es (save_usage_data whole s) (save-healthy s h),
  (save-traffic p s h).0,
)

total-add_usage :
    (u : PortUsage) (m : List PortUsage) → total (add_usage u m) ≡ (u.usage + total m) % 2 ^ 64
unfolding add_usage total
total-add_usage u [] = omega arith
total-add_usage u (e ∷ m) = ground (arith, total-add_usage u m)

total-lt : (m : List PortUsage) → total m < 2 ^ 64
unfolding total
total-lt [] = omega arith
total-lt (e ∷ m) = omega arith

total-add_all : (us m : List PortUsage) → total (add_all us m) ≡ (total us + total m) % 2 ^ 64
unfolding add_all total
total-add_all [] m = omega (arith, total-lt m)
total-add_all (u ∷ us) m = omega (arith, total-add_all us (add_usage u m), total-add_usage u m)

-- After a save that succeeds, if the log file is missing or has one entry per port, the total shown
-- on the page is the sum of what the file and the counters held, as a 64-bit number.
save-total :
    (s : Usage)
    → IsHealthyLog s.log_file
    → (save_usage_data whole s).total_traffic
      ≡ (total s.data_store + total (entries s.log_file)) % 2 ^ 64
save-total s h = rw (save_lem s h) (total-add_all s.data_store (entries s.log_file))
