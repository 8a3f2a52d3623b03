-- ===== src/Tcp/LoopThread/Tests.antt =====
-- A caller that sleeps before the thread has its loop.
use linux_cpp_file_server.Base.{◌≡◌, refl, true, false}
use linux_cpp_file_server.Tcp.LoopThread.{
  EventLoopThread, new_thread, waiting, returned, constructing, looping, create, creating, sleeping,
  Reach, start, next, Run,
}
use linux_cpp_file_server.Tcp.LoopThread.Handshake.{start_loop_lem}

abbrev asleep : EventLoopThread
asleep = record { caller = waiting; worker = constructing; has_loop = false }

asleep_reached : Reach asleep
unfolding create
asleep_reached =
    next (next start (creating new_thread refl)) (sleeping (create new_thread) refl refl)

start_loop_lem_example :
    (asleep.caller ≡ returned → (asleep.has_loop ≡ true) × (asleep.worker ≡ looping))
    × ((t : EventLoopThread) × Run asleep t × (t.caller ≡ returned))
start_loop_lem_example = start_loop_lem asleep_reached
