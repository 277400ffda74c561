-- ===== src/Signal/Examples.antt =====
-- A process with a handler for signal 10 that has 1, 10 and 15 pending.
use noxis.Prelude.{ℕ, ◌≡◌, refl, ◌==◌, if◌then◌else◌}
use noxis.Signal.{Frame, handles, deliver_from, deliver_signals, enter_handler}
use noxis.Signal.Delivery.{IsDelivery, deliver_signals-IsDelivery}

abbrev handler : ℕ → ℕ
handler sig = if sig == 10 then 0x400100 else 0

abbrev frame : Frame
frame = record { rsp = 0x7000; rip = 0x400000; rdi = 0 }

abbrev pending : ℕ
pending = 0x8402

enters_ten :
    deliver_signals handler frame pending
    ≡ (handles (record { rsp = 0x6FF8; rip = 0x400100; rdi = 10 }) 0x6FF8 0x400000, 0x8000)
unfolding deliver_signals deliver_from enter_handler
enters_ten = refl

deliver_signals-IsDelivery_example :
    IsDelivery 1 handler frame pending (deliver_signals handler frame pending)
deliver_signals-IsDelivery_example = deliver_signals-IsDelivery handler frame pending
