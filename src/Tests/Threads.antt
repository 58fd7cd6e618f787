-- ===== src/Tests/Threads.antt =====
-- The theorems on the steps of threads, at concrete states.
use dflockd_client_py.Base.{◌≡◌, refl, true, none, some, List, [], ◌∷◌, ◌++◌, codes}
use dflockd_client_py.Base.Int.{pos}
use dflockd_client_py.Sync.State.{SyncBase}
use dflockd_client_py.Sync.Renewal.{end_thread}
use dflockd_client_py.Sync.Renewal.Steps.{tested, ended, thread_steps}
use dflockd_client_py.Sync.Renewal.Steps.Late.{EndsLate, thread_steps-EndsLate}
use dflockd_client_py.Sync.Close.{
  Scene, to_test, finished, renewing, closing, renew_thread, Turn, play,
}
use dflockd_client_py.Sync.Close.Safe.{ClosesAll, play-ClosesAll}
use dflockd_client_py.Sync.Close.Finishes.{LockIsBusy, play-goes_on}
use dflockd_client_py.Tests.Object as Object
use dflockd_client_py.Tests.Object.{after_acquire, after_acquire-IsValid}

-- A closed object, with a thread of which the test of `_update_lease` has passed.
abbrev closed_object : SyncBase
closed_object = record Object.renewing {
  conn = none;
  token = none;
  lease = pos 0;
  closed = true;
  events = λ e. true;
}

late_example :
    EndsLate (tested (pos 33)) 0 closed_object (thread_steps 1 0 (tested (pos 33), closed_object)).1
    × ((thread_steps 2 0 (tested (pos 33), closed_object)).0 ≡ ended)
late_example = thread_steps-EndsLate 1 0 (tested (pos 33)) closed_object refl refl

-- That thread gives the closed object a lease time again.
late_lease : (thread_steps 2 0 (tested (pos 33), closed_object)).1.lease ≡ pos 33
unfolding thread_steps end_thread
late_lease = refl

-- A lock that is held, whose renew thread waits for an answer when it is closed.
abbrev scene : Scene
scene = record {
  object = after_acquire;
  io_lock = some 1;
  closer = to_test;
  renewers = λ e. renewing 0 (codes "t");
}

scene_busy : LockIsBusy scene
scene_busy = λ e held. (0, codes "t", refl)

abbrev turns : List Turn
turns = closing ∷ closing ∷ closing ∷ closing ∷ closing ∷ closing ∷ renew_thread 1 ∷ []

goes_on_example : (more : List Turn) × ((play (turns ++ more) scene).closer ≡ finished)
goes_on_example = play-goes_on turns scene scene_busy

abbrev plan : (more : List Turn) × ((play (turns ++ more) scene).closer ≡ finished)
plan = play-goes_on turns scene scene_busy

closing_example : ClosesAll scene.object.closed (play (turns ++ plan.0) scene).object
closing_example = play-ClosesAll (turns ++ plan.0) scene after_acquire-IsValid refl plan.1
