-- ===== src/Tests/Sending.antt =====
-- Tests of src/agent.rs.
use async_dpdk.Base.{
  List, ◌⊎◌, ◌≢◌, ◌-◌, ◌≡◌, refl, none, some, [], ◌∷◌, ◌++◌, length, replicate, min, pos, arith,
}
use async_dpdk.Errno.{no_buf, ok, err}
use async_dpdk.Agent.TxBuffer.{
  TxMbuf, TxLib, Documented, TxBuffer, exp_nb_frags, without_hdr, fragment, do_fragment, enqueue,
  transmit, buffer, burst, bursts, new_buffer,
}
use async_dpdk.Agent.TxBuffer.Task.{send_task, ptrs, Item, send_task-order, send_task_drains}
use async_dpdk.Agent.TxBuffer.Capacity.{do_fragment_nulls}
use async_dpdk.Tests.Values.{linux, dpdk_ptypes}

-- A card that takes two packets at a time, and a fragmentation into one fragment.
abbrev card : TxLib
card = record {
  mtu = 1500;
  ptypes = dpdk_ptypes;
  libc = linux;
  adj = λ m n. some (record m { pkt_len = m.pkt_len - n });
  fragment4 = λ m room. (pos 1, m.ptr ∷ []);
  fragment6 = λ m room. (pos 1, m.ptr ∷ []);
  tx_burst = λ port queue ps n. min n 2;
}

card-Documented : Documented card
card-Documented = record { burst_le = λ port queue ps n. omega arith }

abbrev waiting : TxBuffer
waiting = record { port_id = 0; queue_id = 0; mbufs = some 1 ∷ some 2 ∷ some 3 ∷ [] }

abbrev small_packet : TxMbuf
small_packet = record { ptr = 4; pkt_len = 64; packet_type = 17 }

abbrev big_packet : TxMbuf
big_packet = record { ptr = 5; pkt_len = 3000; packet_type = 17 }

abbrev queued : TxBuffer
queued = record waiting { mbufs = some 1 ∷ some 2 ∷ some 3 ∷ some 4 ∷ [] }

enqueue_small : enqueue card small_packet waiting ≡ ok queued
unfolding enqueue
enqueue_small = refl

buffer_small :
    buffer card 3 small_packet waiting
    ≡ ok (some 1 ∷ some 2 ∷ [], record waiting { mbufs = some 3 ∷ some 4 ∷ [] })
unfolding buffer transmit bursts burst enqueue
buffer_small = refl

one_fragment :
    fragment card (without_hdr card big_packet) (exp_nb_frags card big_packet) ≡ ok (pos 1, 5 ∷ [])
unfolding fragment
one_fragment = refl

do_fragment_nulls_example :
    do_fragment card big_packet waiting
    ≡ ok (record waiting { mbufs = some 1 ∷ some 2 ∷ some 3 ∷ some 5 ∷ none ∷ none ∷ [] })
do_fragment_nulls_example =
    do_fragment_nulls card big_packet waiting 1 (5 ∷ []) (omega arith) one_fragment refl
      (omega arith)

abbrev overfull : TxBuffer
overfull = record { port_id = 0; queue_id = 0; mbufs = replicate 1025 none }

send_task-order_example :
    let (r, out, b') = send_task card ((3, small_packet) ∷ (4, small_packet) ∷ []) waiting in
    (done : List Item) × (left : List Item) × ((3, small_packet) ∷ (4, small_packet) ∷ []
      ≡ done ++ left)
    × (out ++ b'.mbufs ≡ waiting.mbufs ++ ptrs done)
    × (((r ≡ ok tt) × (left ≡ [])) ⊎ ((r ≡ err no_buf) × (left ≢ []) × (length b'.mbufs ≡ 1025)))
send_task-order_example =
    send_task-order card card-Documented ((3, small_packet) ∷ (4, small_packet) ∷ []) waiting
      (omega arith, (omega arith, tt)) (omega arith)

-- A card that takes all that it is offered, and an empty queue of it.
abbrev willing : TxLib
willing = record card { tx_burst = λ port queue ps n. n }

send_task_drains_example :
    send_task willing ((1, small_packet) ∷ (1, small_packet) ∷ []) (new_buffer 0 0)
    ≡ (ok tt, some 4 ∷ some 4 ∷ [], new_buffer 0 0)
send_task_drains_example =
    send_task_drains willing ((1, small_packet) ∷ (1, small_packet) ∷ []) (new_buffer 0 0)
      (λ port queue ps n. refl) ((omega arith, omega arith), ((omega arith, omega arith), tt)) refl
