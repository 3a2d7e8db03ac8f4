-- ===== src/Tests/Notify.antt =====
-- A test of the done events: one is pushed and drained.
use hpserver.Prelude.{◌≡◌, refl, true, []}
use hpserver.Server.{ProxyDoneEvent}
use hpserver.Server.Notify.{
  Channel, channel, push_event, write_event, wake, drain_once, Signalled, quiet, pushes, writes,
  wakes, drains,
}
use hpserver.Server.Notify as Notify

abbrev event : ProxyDoneEvent
event = record {
  client_fd = 7;
  ok = true;
  response = [];
  close_after_done = true;
  is_connect = true;
  err = 0;
}

abbrev woken : Channel
woken = wake (write_event 0 (push_event event channel))

abbrev read_once : Channel
read_once = drain_once woken

-- Two reads, a pop, and the pop that finds nothing.
abbrev after : Channel
after = drain_once (drain_once (drain_once read_once))

after-Signalled : Signalled after
after-Signalled = drains (drain_once (drain_once read_once)) (
    drains (drain_once read_once) (
      drains read_once (
        drains woken (
          wakes (write_event 0 (push_event event channel)) refl refl
            (writes 0 (push_event event channel) refl (pushes event channel quiet))))))

Signalled-drained_example : after.drained ≡ after.pushed
Signalled-drained_example = Notify.Signalled-drained after after-Signalled refl refl refl
