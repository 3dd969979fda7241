-- ===== src/Tests/Drains.antt =====
-- Drains of one group, and a process that has ended.
use secnano.Prelude.{ℕ, ◌≡◌, refl, true, none, []}
use secnano.GroupQueue.{GroupQueue, Process, register_process, notify_idle, state_of, with_state}
use secnano.GroupQueue.EventLoop.{
  EventLoop, enqueue, start_drain, has, Steps, here, next, enqueues, starts, empty_loop,
}
use secnano.GroupQueue.Exclusion.{
  IsConsistent, IsConsistent-empty_loop, Steps-IsConsistent, entries_of,
}
use secnano.GroupQueue.Progress.{IsDrained, drains_complete}

abbrev new_loop : EventLoop ℕ
new_loop = empty_loop none

abbrev loaded : EventLoop ℕ
loaded = enqueue "web:team" "b" 8 (enqueue "web:team" "a" 7 new_loop)

abbrev busy : EventLoop ℕ
busy = start_drain "web:team" loaded

busy-Steps : Steps new_loop busy
unfolding has enqueue state_of with_state
busy-Steps =
    next
      (next (next here (enqueues "web:team" "a" 7 new_loop))
        (enqueues "web:team" "b" 8 (enqueue "web:team" "a" 7 new_loop)))
      (starts "web:team" loaded refl)

Steps-IsConsistent_example : IsConsistent "web:team" busy
Steps-IsConsistent_example =
    Steps-IsConsistent "web:team" busy-Steps (IsConsistent-empty_loop "web:team" none)

loaded-IsConsistent : IsConsistent "web:team" loaded
loaded-IsConsistent =
    Steps-IsConsistent "web:team"
      (next (next here (enqueues "web:team" "a" 7 new_loop))
        (enqueues "web:team" "b" 8 (enqueue "web:team" "a" 7 new_loop)))
      (IsConsistent-empty_loop "web:team" none)

drains_complete_example :
    (m : EventLoop ℕ) × IsDrained "web:team" loaded m
    × ((state_of "web:team" m.groups).idle_event ≡ true)
    × (entries_of "web:team" m.started ≡ entries_of "web:team" loaded.arrived)
drains_complete_example = drains_complete "web:team" loaded loaded-IsConsistent

abbrev test_queue : GroupQueue ℕ
test_queue = record { states = []; process_messages_fn = none }

abbrev test_process : Process
test_process = record { pid = 42; returncode = none }

abbrev ended_queue : GroupQueue ℕ
ended_queue =
    notify_idle "web:team" (register_process "web:team" test_process "agent" "team" test_queue)
