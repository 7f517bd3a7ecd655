-- ===== src/Virtio/Calls.antt =====
-- The calls of bsp/virtio_net.c that take a frame off one device's receive queue. Each refuses a missing
-- device, one that is not usable, and one that is not among the counted ones; behind these tests it is
-- the function of Virtio/Rx on the device's queue. The pointers for the results are taken not to be NULL.
use ucosii_arm64_qemu.Prelude.{
  ℕ, ◌<◌, ◌≡◌, refl, Bool, true, Option, none, some, ltb, ◌&&◌, if◌then◌else◌, arith, set,
}
use ucosii_arm64_qemu.Virtio.Rx.{peek_queue, release_queue, poll_queue}
use ucosii_arm64_qemu.Virtio.Board.{Board, device}

-- `driver_ok` is set, and the search finds the device below `g_device_count`.
abbrev pub is_served : ℕ → Board → Bool
is_served i b = (device b i).tx.driver_ok && ltb i b.device_count

unfoldable pub virtio_net_peek_rx_buffer_dev : Board → Option ℕ → Option (ℕ × ℕ)
virtio_net_peek_rx_buffer_dev b none = none
virtio_net_peek_rx_buffer_dev b (some i) =
    if is_served i b then peek_queue (device b i).rx else none

unfoldable pub virtio_net_release_rx_buffer_dev : ℕ → Board → Option ℕ → Board
virtio_net_release_rx_buffer_dev desc_id b none = b
virtio_net_release_rx_buffer_dev desc_id b (some i) =
    let d = device b i in
    if is_served i b
    then record b { devices = set b.devices i (record d { rx = release_queue desc_id d.rx }) }
    else b

-- `none` for -1, and otherwise the return value and the length.
unfoldable pub virtio_net_poll_frame_dev : Board → Option ℕ → Board × Option (ℕ × ℕ)
virtio_net_poll_frame_dev b none = (b, none)
virtio_net_poll_frame_dev b (some i) =
    let d = device b i in
    let (rx, result) = poll_queue d.rx in
    if is_served i b
    then (record b { devices = set b.devices i (record d { rx = rx }) }, result)
    else (b, none)

pub served_lem :
    (i : ℕ) (b : Board)
    → (device b i).tx.driver_ok ≡ true
    → i < b.device_count
    → is_served i b ≡ true
served_lem i b ok below =
    let counted : ltb i b.device_count ≡ true = ground arith in rw (ok, counted) refl
