-- ===== src/Server/Shutdown.antt =====
-- How a process ends.
use property_platform_backen.Prelude.{
  ℕ, ◌+◌, ◌-◌, ◌≤◌, ◌≡◌, ◌⊎◌, ◌∙◌, refl, inl, inr, Bool, true, false, not, ◌&&◌, Option, none, some,
  List, [], ◌∷◌, ◌++◌, leb, ◌==◌, if◌then◌else◌, arith,
}
use property_platform_backen.Server.{
  Server, Event, connected, disconnected, signalled, uncaught, pool_ended, ticked, close_if_drained,
  first_timer, shutdown, after_pool, fire, handle, unless_ended, step, run,
}

-- No connection is left and none is accepted, if `pool.end()` has been called; and it has, if the
-- process has ended with 0.
pub record IsOrderly (s : Server) : Type 0 where
  pub drained : s.ending ≡ true → (s.accepting ≡ false) × (s.connections ≡ 0)
  pub ended : s.exit ≡ some 0 → s.ending ≡ true

by_cases :
    (b : Bool) (s t : Server)
    → (b ≡ true → IsOrderly s)
    → (b ≡ false → IsOrderly t)
    → IsOrderly (if b then s else t)
by_cases true s t h k = h refl
by_cases false s t h k = k refl

close_if_drained-IsOrderly :
    (s : Server) → s.exit ≡ none → IsOrderly s → IsOrderly (close_if_drained s)
unfolding close_if_drained
close_if_drained-IsOrderly s running h =
    by_cases (not s.accepting && s.connections == 0) (record s { ending = true }) s
      (λ due. record { drained = λ e. ground (arith, due); ended = λ e. refl }) (λ early. h)

fire-IsOrderly : (o : Option ℕ) (s : Server) → IsOrderly s → IsOrderly (fire o s)
unfolding fire
fire-IsOrderly none s h = h
fire-IsOrderly (some t) s h =
    by_cases (leb t s.time) (record s { exit = some 1 }) s
      (λ over. record { drained = h.drained; ended = λ e. cc }) (λ early. h)

handle-IsOrderly :
    (event : Event) (s : Server) → s.exit ≡ none → IsOrderly s → IsOrderly (handle event s)
unfolding handle shutdown after_pool
handle-IsOrderly connected s running h =
    by_cases s.accepting (record s { connections = s.connections + 1 }) s
      (λ opened. record {
        drained = λ e. absurd (ground (arith, opened, (h.drained e).0));
        ended = h.ended;
      })
      (λ shut. h)
handle-IsOrderly disconnected s running h =
    close_if_drained-IsOrderly (record s { connections = s.connections - 1 }) running
      (record { drained = λ e. ((h.drained e).0, omega (arith, (h.drained e).1)); ended = h.ended })
handle-IsOrderly signalled s running h =
    close_if_drained-IsOrderly
      (record s { accepting = false; deadline = first_timer s.deadline (s.time + 10000) }) running
      (record { drained = λ e. (refl, (h.drained e).1); ended = h.ended })
handle-IsOrderly uncaught s running h = record { drained = h.drained; ended = λ e. cc }
handle-IsOrderly (pool_ended returned) s running h =
    by_cases s.ending (record s { redis_open = s.redis_open && not returned; exit = some 0 }) s
      (λ called. record { drained = h.drained; ended = λ e. called }) (λ not_yet. h)
handle-IsOrderly (ticked t) s running h =
    fire-IsOrderly s.deadline (record s { time = t })
      (record { drained = h.drained; ended = h.ended })

step-IsOrderly : (event : Event) (s : Server) → IsOrderly s → IsOrderly (step event s)
unfolding step unless_ended
step-IsOrderly event s h = go s.exit refl
  where
    go : (o : Option ℕ) → s.exit ≡ o → IsOrderly (unless_ended o event s)
    go none running = handle-IsOrderly event s running h
    go (some code) over = h

run-IsOrderly : (events : List Event) (s : Server) → IsOrderly s → IsOrderly (run events s)
unfolding run
run-IsOrderly [] s h = h
run-IsOrderly (event ∷ rest) s h = run-IsOrderly rest (step event s) (step-IsOrderly event s h)

abbrev pub has_ended : Option ℕ → Bool
has_ended none = false
has_ended (some code) = true

-- The process has ended, or the first timer ends at `d`.
abbrev IsTimed : ℕ → Server → Type 0
IsTimed d s = (has_ended s.exit ≡ true) ⊎ (s.deadline ≡ some d)

deadline-close_if_drained : (s : Server) → (close_if_drained s).deadline ≡ s.deadline
unfolding close_if_drained
deadline-close_if_drained s = ground arith

fire-IsTimed : (d : ℕ) (o : Option ℕ) (s : Server) → s.deadline ≡ some d → IsTimed d (fire o s)
unfolding fire
fire-IsTimed d none s h = inr h
fire-IsTimed d (some t) s h = ground (arith, h)

handle-IsTimed :
    (d : ℕ) (event : Event) (s : Server) → s.deadline ≡ some d → IsTimed d (handle event s)
unfolding handle shutdown after_pool
handle-IsTimed d connected s h = inr (ground (arith, h))
handle-IsTimed d disconnected s h =
    inr (deadline-close_if_drained (record s { connections = s.connections - 1 }) ∙ h)
handle-IsTimed d signalled s h = inr (
    deadline-close_if_drained
      (record s { accepting = false; deadline = first_timer s.deadline (s.time + 10000) })
    ∙ rw h refl)
handle-IsTimed d uncaught s h = inl refl
handle-IsTimed d (pool_ended returned) s h = inr (ground (arith, h))
handle-IsTimed d (ticked t) s h = fire-IsTimed d s.deadline (record s { time = t }) h

-- A process that has ended has ended for good.
step-ended : (event : Event) (s : Server) → has_ended s.exit ≡ true → step event s ≡ s
unfolding step
step-ended event s h = go s.exit h
  where
    go : (o : Option ℕ) → has_ended o ≡ true → unless_ended o event s ≡ s
    go none h = absurd (ground arith)
    go (some code) h = refl

step-IsTimed : (d : ℕ) (event : Event) (s : Server) → IsTimed d s → IsTimed d (step event s)
unfolding step unless_ended
step-IsTimed d event s (inl over) = rw (step-ended event s over) (inl over)
step-IsTimed d event s (inr timer) = go s.exit refl
  where
    go : (o : Option ℕ) → s.exit ≡ o → IsTimed d (unless_ended o event s)
    go none running = handle-IsTimed d event s timer
    go (some code) over = inl (rw over refl)

run-IsTimed : (d : ℕ) (events : List Event) (s : Server) → IsTimed d s → IsTimed d (run events s)
unfolding run
run-IsTimed d [] s h = h
run-IsTimed d (event ∷ rest) s h = run-IsTimed d rest (step event s) (step-IsTimed d event s h)

run-ended :
    (events : List Event) (s : Server)
    → has_ended s.exit ≡ true
    → has_ended (run events s).exit ≡ true
unfolding run
run-ended [] s h = h
run-ended (event ∷ rest) s h = run-ended rest (step event s) (rw (step-ended event s h) h)

run-append :
    (events more : List Event) (s : Server) → run (events ++ more) s ≡ run more (run events s)
unfolding run
run-append [] more s = refl
run-append (event ∷ rest) more s = run-append rest more (step event s)

late_tick : (d t : ℕ) (s : Server) → d ≤ t → IsTimed d s → has_ended (step (ticked t) s).exit ≡ true
unfolding step unless_ended handle fire
late_tick d t s le (inl over) = rw (step-ended (ticked t) s over) over
late_tick d t s le (inr timer) = go s.exit refl
  where
    go : (o : Option ℕ) → s.exit ≡ o → has_ended (unless_ended o (ticked t) s).exit ≡ true
    go none running = rw timer (ground (arith, le))
    go (some code) over = rw over refl

signal-IsTimed :
    (s : Server) → s.exit ≡ none → s.deadline ≡ none → IsTimed (s.time + 10000) (step signalled s)
unfolding step unless_ended handle shutdown
signal-IsTimed s running quiet = go s.exit running
  where
    go : (o : Option ℕ) → o ≡ none → IsTimed (s.time + 10000) (unless_ended o signalled s)
    go none r = inr (
        deadline-close_if_drained
          (record s { accepting = false; deadline = first_timer s.deadline (s.time + 10000) })
        ∙ rw quiet refl)
    go (some code) r = absurd (ground (arith, r))

-- After a signal to a process that runs, whatever happens then, and with it at some point a time of
-- ten seconds or more after the signal, the process has ended; and with 0 only if it accepts no
-- connection and none is left. Before the signal the process has set no timer and called no end of
-- the pool.
pub shutdown_ends :
    (before after : List Event) (t : ℕ) (s : Server)
    → s.exit ≡ none
    → s.deadline ≡ none
    → s.ending ≡ false
    → s.time + 10000 ≤ t
    → let final = run (signalled ∷ before ++ ticked t ∷ after) s in
      (has_ended final.exit ≡ true)
      × (final.exit ≡ some 0 → (final.accepting ≡ false) × (final.connections ≡ 0))
unfolding run
shutdown_ends before after t s running quiet idle late =
    let d = s.time + 10000 in
    let begun = step signalled s in
    let timed = run-IsTimed d before begun (signal-IsTimed s running quiet) in
    let over = late_tick d t (run before begun) late timed in
    let orderly : IsOrderly s = record {
      drained = λ e. absurd (ground (arith, e, idle));
      ended = λ e. absurd (ground (arith, e, running));
    } in
    let final =
      run-IsOrderly (before ++ ticked t ∷ after) begun (step-IsOrderly signalled s orderly) in
    (
      rw (run-append before (ticked t ∷ after) begun)
          (run-ended after (step (ticked t) (run before begun)) over),
      λ e. final.drained (final.ended e),
    )
