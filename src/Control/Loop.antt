-- ===== src/Control/Loop.antt =====
-- What the server's loop writes on the control channel, event by event.
use ttest.Prelude.{
  ℕ, suc, ◌≡◌, refl, sym, ◌∙◌, ap, Bool, true, false, not, ◌&&◌, List, [], ◌∷◌, ◌++◌, arith,
  if◌then◌else◌, Bytes, length, append_assoc, append-nil, subst, Bool-cases, inl, inr, if_false,
}
use ttest.Wire.Signals.{sg_hb, sg_chan, sg_closed}
use ttest.Control.Server.{
  Event, cancelled, request, tick, message, read_failed, ServerControl, Sender, emitted, emit,
  farewell, Reader, reader_runs, reader_failed, reader_done, is_done, after_message, on_read_error,
  handle, run, OnMessage,
}

-- A connection on which writes get through: `Ready n c` says that the next `n` do, and `log c` is
-- what has been written so far.
pub record Reliable {C : Type 0} (send : Sender C) : Type 1 where
  pub log : C → Bytes
  pub Ready : ℕ → C → Type 0
  pub sends :
      (n b : ℕ) (c : C)
      → Ready (suc n) c
      → (d : C) × (send b c ≡ (true, d)) × (log d ≡ log c ++ (b ∷ [])) × Ready n d
  pub fewer : (n : ℕ) (c : C) → Ready (suc n) c → Ready n c

-- The bytes that a list of events puts on the channel. `ends` says which messages end the loop,
-- `once` that the goroutine reads a single byte, and `reader` is that goroutine. After an error it may
-- have left one byte (unless it reads only one), which the loop still takes.
module _ (ends : ℕ → Bool) (once : Bool) where
  abbrev pub next_reader : Reader → Reader
  next_reader reader = if once then reader_done else after_message reader

  abbrev pub failed_reader : Reader → Reader
  failed_reader reader_runs = if once then reader_done else reader_failed
  failed_reader reader = reader

  abbrev pub signals : Reader → List Event → Bytes
  signals reader [] = []
  signals reader (cancelled ∷ es) = sg_closed ∷ []
  signals reader (request ∷ es) = sg_chan ∷ signals reader es
  signals reader (tick ∷ es) = sg_hb ∷ signals reader es
  signals reader (message b at ∷ es) =
      let rest = signals (next_reader reader) es in
      if not (is_done reader) && ends b then [] else rest
  signals reader (read_failed ∷ es) = signals (failed_reader reader) es

-- A message touches the connection in no case, and stops the loop if it is one that ends it.
abbrev pub FollowsEnds : {C : Type 0} → (ℕ → Bool) → Bool → OnMessage C → Type 0
FollowsEnds {C} ends once om =
    (b at : ℕ) (s : ServerControl C)
    → s.stopped ≡ false
    → ((om b at s).conn ≡ s.conn)
      × ((om b at s).stopped ≡ ends b)
      × ((om b at s).reader ≡ (if once then reader_done else s.reader))

module _ {C : Type 0} (send : Sender C) (om : OnMessage C) (left : Reader) where
  handle_stopped :
      (e : Event) (s : ServerControl C)
      → s.stopped ≡ true
      → ((handle send om left e s).stopped ≡ true) × ((handle send om left e s).conn ≡ s.conn)
  unfolding handle
  handle_stopped cancelled s h = ground arith
  handle_stopped request s h = ground arith
  handle_stopped tick s h = ground arith
  handle_stopped (message b at) s h = ground arith
  handle_stopped read_failed s h = let (a, c) = on_error s.reader in (a ∙ h, c)
    where
      on_error :
          (r : Reader)
          → ((on_read_error left r s).stopped ≡ s.stopped)
            × ((on_read_error left r s).conn ≡ s.conn)
      on_error reader_runs = (refl, refl)
      on_error reader_failed = (refl, refl)
      on_error reader_done = (refl, refl)

  handle_reading :
      (b at : ℕ) (s : ServerControl C)
      → s.stopped ≡ false
      → is_done s.reader ≡ false
      → handle send om left (message b at) s
        ≡ om b at (record s { reader = after_message s.reader })
  unfolding handle
  handle_reading b at s h k = rw (h, k) refl

  run_stopped :
      (es : List Event) (s : ServerControl C)
      → s.stopped ≡ true
      → (run send om left es s).conn ≡ s.conn
  unfolding run
  run_stopped [] s h = refl
  run_stopped (e ∷ es) s h =
      let (still, same) = handle_stopped e s h in
      run_stopped es (handle send om left e s) still ∙ same

module _ {C : Type 0} (send : Sender C) (rel : Reliable send) where
  open rel use {log, Ready, sends, fewer}

  module _ (om : OnMessage C) (left : Reader) where
    -- What the loop writes from `s` on, where the first event leaves `s'` and has written `out`.
    continue_with :
        (e : Event) (es : List Event) (s s' : ServerControl C) (out rest : Bytes)
        → handle send om left e s ≡ s'
        → log s'.conn ≡ log s.conn ++ out
        → log (run send om left es s').conn ≡ log s'.conn ++ rest
        → log (run send om left (e ∷ es) s).conn ≡ log s.conn ++ (out ++ rest)
    unfolding run
    continue_with e es s s' out rest h l ih =
        ap (λ t. log (run send om left es t).conn) h
        ∙ ih
        ∙ ap (λ x. x ++ rest) l
        ∙ append_assoc (log s.conn) out rest

  module _ (om : OnMessage C) (ends : ℕ → Bool) (once : Bool)
      (follows : FollowsEnds ends once om) where
    abbrev left : Reader
    left = failed_reader ends once reader_runs

    -- What the loop writes for `es` from a state with the same connection.
    abbrev Goes : List Event → Reader → C → Type 0
    Goes es rd conn =
        (s : ServerControl C)
        → s.stopped ≡ false
        → s.reader ≡ rd
        → s.conn ≡ conn
        → log (run send om left es s).conn ≡ log conn ++ signals ends once rd es

    -- A message that the loop takes.
    taken_message :
        (b at : ℕ) (es : List Event) (s : ServerControl C) (rd : Reader)
        → s.stopped ≡ false
        → s.reader ≡ rd
        → is_done rd ≡ false
        → Goes es (next_reader ends once rd) s.conn
        → log (run send om left (message b at ∷ es) s).conn
          ≡ log s.conn ++ (if ends b then [] else signals ends once (next_reader ends once rd) es)
    taken_message b at es s rd h k d ih =
        let t = record s { reader = after_message s.reader } in
        let (same, stop, read) = follows b at t h in
        let s' = om b at t in
        let step : handle send om left (message b at) s ≡ s' =
          handle_reading send om left b at s h (ap is_done k ∙ d) in
        let out : log s'.conn ≡ log s.conn ++ [] = ap log same ∙ sym (append-nil _) in
        elim (Bool-cases (ends b)) [
          | inl e ↦ rw e (
              continue_with om left (message b at) es s s' [] [] step out
                (ap log (run_stopped send om left es s' (stop ∙ e)) ∙ sym (append-nil _)))
          | inr e ↦ rw e (
              continue_with om left (message b at) es s s' [] _ step out (
                ih s' (stop ∙ e) (read ∙ ap (λ r. if once then reader_done else after_message r) k)
                  same
                ∙ ap (λ c. log c ++ signals ends once (next_reader ends once rd) es) (sym same)))
        ]

    same_reader : (rd : Reader) → is_done rd ≡ true → next_reader ends once rd ≡ rd
    same_reader reader_runs d = cc
    same_reader reader_failed d = cc
    same_reader reader_done d = ground arith

    failing :
        (s : ServerControl C) (rd : Reader)
        → s.reader ≡ rd
        → (handle send om left read_failed s).reader ≡ failed_reader ends once rd
    unfolding handle
    failing s reader_runs k = rw k refl
    failing s reader_failed k = rw k refl
    failing s reader_done k = rw k refl

    failing_same :
        (s : ServerControl C) (rd : Reader)
        → s.reader ≡ rd
        → ((handle send om left read_failed s).conn ≡ s.conn)
          × ((handle send om left read_failed s).stopped ≡ s.stopped)
    unfolding handle
    failing_same s reader_runs k = rw k (refl, refl)
    failing_same s reader_failed k = rw k (refl, refl)
    failing_same s reader_done k = rw k (refl, refl)

    pub from_reading :
        (es : List Event) (s : ServerControl C) (rd : Reader)
        → s.stopped ≡ false
        → s.reader ≡ rd
        → Ready (length es) s.conn
        → log (run send om left es s).conn ≡ log s.conn ++ signals ends once rd es
    from_reading [] s rd h k r = unfold run in sym (append-nil _)
    from_reading (cancelled ∷ es) s rd h k r =
        let (d, sent, l, _) = sends _ sg_closed s.conn r in
        let s' = farewell send s in
        let c : s'.conn ≡ d = unfold farewell in ap (λ x. x.1) sent in
        continue_with om left cancelled es s s' (sg_closed ∷ []) []
          (unfold handle in if_false _ _ h) (ap log c ∙ l)
          (ap log (run_stopped send om left es s' (unfold farewell in refl)) ∙ sym (append-nil _))
    from_reading (request ∷ es) s rd h k r =
        let (d, sent, l, r') = sends _ sg_chan s.conn r in
        let s' = record s { conn = d } in
        continue_with om left request es s s' (sg_chan ∷ []) _
          (unfold handle in if_false _ _ h ∙ (unfold emit in ap (emitted s) sent)) l
          (from_reading es s' rd h k r')
    from_reading (tick ∷ es) s rd h k r =
        let (d, sent, l, r') = sends _ sg_hb s.conn r in
        let s' = record s { conn = d } in
        continue_with om left tick es s s' (sg_hb ∷ []) _
          (unfold handle in if_false _ _ h ∙ (unfold emit in ap (emitted s) sent)) l
          (from_reading es s' rd h k r')
    from_reading (message b at ∷ es) s rd h k r = elim (Bool-cases (is_done rd)) [
      | inl d ↦
          rw (d, same_reader rd d)
            (continue_with om left (message b at) es s s [] _ (unfold handle in rw (h, k, d) refl)
              (sym (append-nil _)) (from_reading es s rd h k (fewer _ _ r)))
      | inr d ↦ rw d (
          taken_message b at es s rd h k d (λ s' h' k' c'.
            from_reading es s' (next_reader ends once rd) h' k'
              (subst (Ready _) (sym c') (fewer _ _ r))
            ∙ ap (λ c. log c ++ signals ends once (next_reader ends once rd) es) c'))
    ]
    from_reading (read_failed ∷ es) s rd h k r =
        let s' = handle send om left read_failed s in
        let (c, p) = failing_same s rd k in
        continue_with om left read_failed es s s' [] _ refl (ap log c ∙ sym (append-nil _)) (
          from_reading es s' (failed_reader ends once rd) (p ∙ h) (failing s rd k)
            (subst (Ready _) (sym c) (fewer _ _ r)))
