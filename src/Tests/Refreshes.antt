-- ===== src/Tests/Refreshes.antt =====
-- Tests of the automatic refresh.
use ti_relay_trader.Prelude.{◌+◌, ◌≤◌, ◌≡◌, refl, true, some, [], ◌∷◌, map, arith}
use ti_relay_trader.Prelude.Int.{pos, pos_part}
use ti_relay_trader.Text.{trim_space}
use ti_relay_trader.Orderflow.AutoRefresh.{
  Timer, Refreshing, new_auto_refresh_scheduler, begin, timer_of, request, stop, run,
}
use ti_relay_trader.Orderflow.AutoRefresh.Steps.{Steps, running, without, stop-Steps}
use ti_relay_trader.Orderflow.AutoRefresh.Cooldown.{Prompt, Prompts, IsPaced, begin-IsPaced}

abbrev start : Refreshing
start = begin (new_auto_refresh_scheduler true (pos 10) (pos 100)) 1000

abbrev requested : Refreshing
requested = request "acct" "" start

abbrev first_timer : Timer
first_timer = record { id = 0; due = 1010; account_id = "acct"; reason = "trade-change" }

abbrev later : Refreshing
later = record requested { now = requested.now + 10 }

first-waits : timer_of 0 later.waiting ≡ some first_timer
unfolding request new_auto_refresh_scheduler trim_space
first-waits = refl

first-due : first_timer.due ≤ later.now
unfolding request new_auto_refresh_scheduler trim_space
first-due = omega arith

abbrev ran : Refreshing
ran = run first_timer (record later { waiting = without 0 later.waiting })

begin-IsPaced_example : IsPaced (pos_part (pos 100)) (request " acct " "fill" ran)
begin-IsPaced_example = begin-IsPaced true (pos 10) (pos 100) 1000 (request " acct " "fill" ran) (
    Prompts.further (Prompt.requesting "acct" "" start) (
      Prompts.further (Prompt.passing 10 requested) (
        Prompts.further (Prompt.firing 0 first_timer later first-waits first-due) (
          Prompts.further (Prompt.requesting " acct " "fill" ran)
            (Prompts.done (request " acct " "fill" ran))))))

-- The second request waits for the end of the cooldown.
second-due : map (λ t. t.due) (request " acct " "fill" ran).waiting ≡ 1110 ∷ []
unfolding request new_auto_refresh_scheduler trim_space run
second-due = refl

abbrev fired : Refreshing
fired = record later { waiting = without 0 later.waiting; started = first_timer ∷ later.started }

first-started : timer_of 0 (stop fired).started ≡ some first_timer
unfolding stop request new_auto_refresh_scheduler trim_space
first-started = refl

abbrev after_stop : Refreshing
after_stop = run first_timer (record (stop fired) { started = without 0 (stop fired).started })

stop-Steps_example : (after_stop.scheduler.stopped ≡ true) × (after_stop.runs ≡ fired.runs)
stop-Steps_example =
    stop-Steps fired after_stop
      (Steps.further (running 0 first_timer (stop fired) first-started) (Steps.done after_stop))

-- A request between the firing of a timer and its run: the run takes the new timer from the map, and
-- the account is refreshed again 10 later, in spite of the cooldown of 100.
abbrev overtaken : Refreshing
overtaken =
    let raced = request "acct" "" fired in
    let ran' = run first_timer (record raced { started = without 0 raced.started }) in
    let passed = record ran' { now = ran'.now + 10 } in
    run (record first_timer { id = 1; due = 1020 })
      (record passed { waiting = without 1 passed.waiting })

overtaken-runs : map (λ r. r.started_at) overtaken.runs ≡ 1020 ∷ 1010 ∷ []
unfolding request new_auto_refresh_scheduler trim_space run
overtaken-runs = refl
