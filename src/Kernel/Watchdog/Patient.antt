-- ===== src/Kernel/Watchdog/Patient.antt =====
-- The loop with an engine that is pending for a while and answers in time (kernel/src/agent.rs,
-- `drive_goal`).
use apex_os_rv.Prelude.{
  ℕ, suc, ◌+◌, ◌*◌, ◌-◌, ◌≤◌, ◌<◌, ◌≡◌, ◌≢◌, refl, ap, sym, ◌∙◌, true, false, Option, some, List,
  [], ◌++◌, append-nil, append_assoc, Text, arith,
}
use apex_os_rv.Protocol.Wire.{Wire}
use apex_os_rv.Protocol.Event.{Event}
use apex_os_rv.Goal.Driver.{
  GoalDriver, TurnResult, TickContext, Inference, pending, is_acting, tick_context, start, advance,
}
use apex_os_rv.Goal.Lifecycle.{start-IsValid}
use apex_os_rv.Kernel.Watchdog.{Loop, u64_mod, round, begin, drive, drive_goal}
use apex_os_rv.Kernel.Watchdog.Round.{IsClock, drive-suc, drive-over}
use apex_os_rv.Kernel.Watchdog.Transparent.{seen}
use apex_os_rv.Kernel.Watchdog.Calm.{Stands, round-waits, round-answers, along, narrow, acts}

module _ (w : Wire) {S : Type 0} (next : Inference S) where
  -- `Answers c n s r s'`: asked with the context `c`, the engine `s` is pending `n` times and then
  -- answers `r`, as the engine `s'`.
  pub data Answers (c : TickContext) : ℕ → S → TurnResult → S → Type 0 where
    now : {s s' : S} {r : TurnResult} → next s c ≡ (r, s') → r ≢ pending → Answers c 0 s r s'
    later :
        {n : ℕ} {s s' s'' : S} {r : TurnResult}
        → next s c ≡ (pending, s')
        → Answers c n s' r s''
        → Answers c (suc n) s r s''

  -- `Dialogue n turns d s d' s' events`: in so many turns, each of which is pending `n` times at most,
  -- the goal and its engine come from `d` and `s` to `d'` and `s'`, where the goal is over, and these
  -- events are emitted.
  pub data Dialogue (n : ℕ) : ℕ → GoalDriver → S → GoalDriver → S → List (Event w) → Type 0 where
    over : {d : GoalDriver} {s : S} → is_acting d.state ≡ false → Dialogue n 0 d s d s []
    turn :
        {m turns : ℕ} {d d' : GoalDriver} {s s' s'' : S} {r : TurnResult} {events : List (Event w)}
        → is_acting d.state ≡ true
        → Answers (tick_context d) m s r s'
        → m ≤ n
        → Dialogue n turns (advance w d r).0 s' d' s'' events
        → Dialogue n (suc turns) d s d' s'' ((advance w d r).1 ++ events)

monotone : (m n gap : ℕ) → m ≤ n → m * gap ≤ n * gap
monotone m n gap h = grind arith

module _ (w : Wire) {S : Type 0} (next : Inference S) (clock : ℕ → ℕ) (timeout : ℕ) where
  module _ (c : IsClock clock) (short : timeout < u64_mod) (gap : ℕ)
      (quick : (k : ℕ) → clock (suc k) ≤ clock k + gap) where
    -- A whole turn: the loop goes on from where the driver took the answer.
    drive-Answers :
        {d : GoalDriver} {m : ℕ} {s s' : S} {r : TurnResult} (room fuel : ℕ)
        (o : Option (GoalDriver × S × List (Event w))) (log : List (Event w)) (l : Loop w S)
        → gap + room ≤ timeout
        → is_acting d.state ≡ true
        → Answers w next (tick_context d) m s r s'
        → Stands w next clock timeout (m * gap) d s log l
        → ((l' : Loop w S)
            → Stands w next clock timeout room (advance w d r).0 s' (log ++ (advance w d r).1) l'
            → seen (drive w next clock timeout fuel l') ≡ o)
        → seen (drive w next clock timeout (suc m + fuel) l) ≡ o
    drive-Answers {d} room fuel o log l fits a (now {s} {s'} {r} e ne) h rest =
        let here =
          along w next clock timeout c short gap quick (sym h.same_driver) (sym h.same_log) h in
        let e' = ap (λ d. next s (tick_context d)) h.same_driver ∙ e in
        ap (λ n. seen (drive w next clock timeout n l)) {x = suc 0 + fuel} {y = suc fuel}
          (omega arith)
        ∙ ap seen (
            drive-suc w next clock timeout fuel l
              (acts w next clock timeout c short gap quick l h a))
        ∙ rest (round w next clock timeout l) (
            along w next clock timeout c short gap quick (ap (λ d. (advance w d r).0) h.same_driver)
              (ap (λ d. l.log ++ (advance w d r).1) h.same_driver
                ∙ ap (λ x. x ++ (advance w d r).1) h.same_log)
              (round-answers w next clock timeout c short gap quick (0 * gap) room s s' r l fits
                (acts w next clock timeout c short gap quick l h a) here e' ne))
    drive-Answers {d} room fuel o log l fits a (later {n} {s} {s'} e more) h rest =
        let here : Stands w next clock timeout (gap + n * gap) l.driver s l.log l =
          along w next clock timeout c short gap quick (sym h.same_driver) (sym h.same_log)
            (narrow w next clock timeout c short gap quick (omega arith) h) in
        let e' = ap (λ d. next s (tick_context d)) h.same_driver ∙ e in
        ap (λ k. seen (drive w next clock timeout k l)) {x = suc (suc n) + fuel}
          {y = suc (suc n + fuel)} (omega arith)
        ∙ ap seen (
            drive-suc w next clock timeout (suc n + fuel) l
              (acts w next clock timeout c short gap quick l h a))
        ∙ drive-Answers room fuel o log (round w next clock timeout l) fits a more
            (along w next clock timeout c short gap quick h.same_driver h.same_log (
              round-waits w next clock timeout c short gap quick (n * gap) s s' l
                (acts w next clock timeout c short gap quick l h a) here e'))
            rest

    drive-Dialogue :
        (n : ℕ) {turns : ℕ} {d d' : GoalDriver} {s s' : S} {events : List (Event w)} (fuel : ℕ)
        (log : List (Event w)) (l : Loop w S)
        → gap + n * gap ≤ timeout
        → Dialogue w next n turns d s d' s' events
        → Stands w next clock timeout (n * gap) d s log l
        → turns * suc n ≤ fuel
        → seen (drive w next clock timeout fuel l) ≡ some (d', s', log ++ events)
    drive-Dialogue n {d = d} {s = s} fuel log l fits (over off) h enough =
        ap seen
          (drive-over w next clock timeout fuel l (ap (λ d. is_acting d.state) h.same_driver ∙ off))
        ∙ ap (λ d. some (d, l.engine, l.log)) h.same_driver
        ∙ ap (λ s. some (d, s, l.log)) h.same_engine
        ∙ ap (λ log. some (d, s, log)) (h.same_log ∙ sym (append-nil log))
    drive-Dialogue n fuel log l fits
          (turn {m} {turns} {d} {d'} {s} {s'} {s''} {r} {events} a answers less more) h enough =
        let left = fuel - suc m in
        ap (λ k. seen (drive w next clock timeout k l)) {x = fuel} {y = suc m + left} (omega arith)
        ∙ drive-Answers (n * gap) left (some (d', s'', log ++ ((advance w d r).1 ++ events))) log l
            fits a answers (narrow w next clock timeout c short gap quick (monotone m n gap less) h)
            (λ l' h'.
              drive-Dialogue n left (log ++ (advance w d r).1) l' fits more h' (omega arith)
              ∙ ap (λ x. some (d', s'', x)) (append_assoc log (advance w d r).1 events))

    -- With a clock that ticks and takes at most `gap` between two readings, a timeout that is a
    -- u64 and has room for `n + 1` gaps, and an inference that is pending at most `n` times in
    -- each turn until the goal is over: with fuel for these polls the loop returns what the turns
    -- come to, the driver, the engine and the events, and the watchdog never fires.
    pub drive_goal-Dialogue :
        (n : ℕ) {turns : ℕ} {d' : GoalDriver} {s' : S} {events : List (Event w)} (objective : Text)
        (fuel : ℕ) (s : S)
        → gap + n * gap ≤ timeout
        → let (d, begun) = start w 1 objective 8 in
          Dialogue w next n turns d s d' s' events
          → turns * suc n ≤ fuel
          → seen (drive_goal w next clock timeout fuel objective s) ≡ some (d', s', begun ++ events)
    unfolding drive_goal begin
    drive_goal-Dialogue n objective fuel s fits turns enough =
        drive-Dialogue n fuel (start w 1 objective 8).1 (begin w next clock timeout objective s)
          fits turns
          (record {
            same_driver = refl;
            same_engine = refl;
            same_log = refl;
            valid = start-IsValid w 1 objective 8;
            acting = λ a. record {
              at_step = refl;
              last = 0;
              began = 0;
              timed = record {
                reads = refl;
                stamp = refl;
                order = omega arith;
                quiet = omega arith;
              };
              room_left = omega arith;
            };
          })
          enough
