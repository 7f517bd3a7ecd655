-- ===== src/Virtio/Tx.antt =====
-- The transmit path of bsp/virtio_net.c. The index of the used ring is written by the device: it is
-- a function of how many times the driver has read it. A device that has not been initialised is
-- `none`; cache maintenance and the console are left out.
use ucosii_arm64_qemu.Prelude.{
  ℕ, zero, suc, ◌+◌, ◌%◌, Bool, true, false, List, ◌++◌, ltb, leb, ◌==◌, if◌then◌else◌, ◌&&◌, ◌||◌,
  u16, sub16, get_or, set, take, drop, replicate, length,
}
use ucosii_arm64_qemu.Virtio.Rx.{Avail}

-- `struct vring_desc`; a buffer is named by its number in the device's row of `g_tx_buffer_storage`.
pub record Desc : Type 0 where
  pub buffer : ℕ
  pub len : ℕ
  pub flags : ℕ
  pub next : ℕ

-- What the driver keeps of one device's transmit queue.
pub record TxQueue : Type 0 where
  pub driver_ok : Bool
  pub queue_size : ℕ
  pub last_used : ℕ
  pub desc : List Desc
  pub avail : Avail
  pub buffers : List (List ℕ)
  pub batch_count : ℕ

-- The local variables of the wait for free slots, and how often the device's index was read.
pub record Wait : Type 0 where
  pub reads : ℕ
  pub retries : ℕ
  pub last_used : ℕ
  pub slots : ℕ

abbrev pub no_desc : Desc
no_desc = record { buffer = 0; len = 0; flags = 0; next = 0 }

-- `in_flight` and `available_slots`, both uint16_t.
unfoldable pub free_slots : ℕ → ℕ → ℕ → ℕ
free_slots size avail_idx used_idx = sub16 size (sub16 avail_idx used_idx)

unfoldable pub read_used : (ℕ → ℕ) → ℕ → ℕ → Wait → Wait
unfolding free_slots
read_used device size avail_idx w = record w {
  reads = suc w.reads;
  last_used = device w.reads;
  slots = free_slots size avail_idx (device w.reads);
}

-- A round that did not free enough: the retry is counted, and every tenth one reads once more.
unfoldable pub retry : (ℕ → ℕ) → ℕ → ℕ → Wait → Wait
unfolding read_used
retry device size avail_idx w =
    let retries = u16 (w.retries + 1) in
    let retried = record w { retries = retries } in
    if retries % 10 == 0 then read_used device size avail_idx retried else retried

-- `while (available_slots < 4u && retries < 100u)`: the body reads the index, leaves if that freed
-- enough, and retries otherwise.
unfoldable pub wait_slots : ℕ → (ℕ → ℕ) → ℕ → ℕ → Wait → Wait
unfolding read_used retry
wait_slots zero device size avail_idx w = w
wait_slots (suc fuel) device size avail_idx w =
    let read = read_used device size avail_idx w in
    let rest = wait_slots fuel device size avail_idx (retry device size avail_idx read) in
    if ltb w.slots 4 && ltb w.retries 100 then (if leb 4 read.slots then read else rest) else w

-- The first look at the used ring, and the wait if fewer than four slots are free. A hundred rounds
-- and the last test need no more fuel.
unfoldable pub find_slots : (ℕ → ℕ) → TxQueue → Wait
unfolding read_used
find_slots device tx =
    let first =
      read_used device tx.queue_size tx.avail.idx
        (record { reads = 0; retries = 0; last_used = tx.last_used; slots = 0 }) in
    if ltb first.slots 4 then wait_slots 101 device tx.queue_size tx.avail.idx first else first

-- The result: the queue, whether the device was notified, and whether the call returned 0.
pub record Sent : Type 0 where
  pub tx : TxQueue
  pub notified : Bool
  pub accepted : Bool

-- The frame behind the 12 zero bytes of `struct virtio_net_hdr`, over what the buffer held.
unfoldable pub fill_buffer : List ℕ → ℕ → List ℕ → List ℕ
fill_buffer frame length old = (replicate 12 0 ++ take length frame) ++ drop (12 + length) old

-- The descriptor, the available ring and the batch counter for a frame in slot `idx % size`.
unfoldable pub queue_frame : List ℕ → ℕ → TxQueue → Sent
unfolding fill_buffer
queue_frame frame length tx =
    let idx = tx.avail.idx % tx.queue_size in
    let batch = u16 (tx.batch_count + 1) in
    record {
      tx = record tx {
        desc = set tx.desc idx (record { buffer = idx; len = length + 12; flags = 0; next = 0 });
        avail = record { idx = u16 (tx.avail.idx + 1); ring = set tx.avail.ring idx idx };
        buffers =
            set tx.buffers idx
              (fill_buffer frame length (get_or tx.buffers idx (replicate 2048 0)));
        batch_count = if leb 16 batch then 0 else batch;
      };
      notified = leb 16 batch;
      accepted = true;
    }

abbrev refuse : TxQueue → Sent
refuse tx = record { tx = tx; notified = false; accepted = false }

unfoldable pub virtio_net_send_frame_dev : (ℕ → ℕ) → List ℕ → ℕ → TxQueue → Sent
unfolding queue_frame
virtio_net_send_frame_dev device frame length tx =
    let found = find_slots device tx in
    let tx' = record tx { last_used = found.last_used } in
    if tx.driver_ok
    then (if length == 0 || ltb 1518 length
        then refuse tx
        else (if ltb found.slots 2 then refuse tx' else queue_frame frame length tx'))
    else refuse tx

-- The frames that wait for a notification are announced; the flag says whether the device was.
unfoldable pub virtio_net_tx_flush_dev : TxQueue → TxQueue × Bool
virtio_net_tx_flush_dev tx =
    if ltb 0 tx.batch_count then (record tx { batch_count = 0 }, true) else (tx, false)
