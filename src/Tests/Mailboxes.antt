-- ===== src/Tests/Mailboxes.antt =====
-- Tests of the mailboxes of src/proto/socket.rs and of `recv_from` of src/proto/udp.rs.
use async_dpdk.Base.{ℕ, ◌≡◌, refl, inl, Bool, true, false, none, List, [], ◌∷◌, ◌++◌, arith}
use async_dpdk.Socket.Mailbox.{new_mailbox}
use async_dpdk.Socket.Mailbox.Fifo.{Call, puts, recvs, IsValid, run, step, Live, packets, run-fifo}
use async_dpdk.Udp.{copy_frags}
use async_dpdk.Udp.Receive.{copy_frags_lem}

abbrev live : ℕ → Bool
live ch = false

abbrev dropped : ℕ → Bool
dropped ch = true

-- A packet comes, two receivers take it and wait, and two packets come.
abbrev calls : List (Call ℕ)
calls = puts live 10 ∷ recvs 0 ∷ recvs 1 ∷ puts live 11 ∷ puts live 12 ∷ []

calls-Live : Live calls
calls-Live = ((λ ch. refl), ((λ ch. refl), ((λ ch. refl), tt)))

run-fifo_example :
    let (ds, m') = run calls new_mailbox in
    (packets ds ++ m'.received ≡ 10 ∷ 11 ∷ 12 ∷ []) × IsValid m'
run-fifo_example = run-fifo calls new_mailbox calls-Live (inl refl)

-- The third packet waits.
run-calls : (run calls new_mailbox).1 ≡ record { received = 12 ∷ []; watcher = none }
unfolding run step
run-calls = refl

copy_frags_lem_example :
    copy_frags ((1 ∷ 2 ∷ []) ∷ (3 ∷ 4 ∷ []) ∷ []) (0 ∷ 0 ∷ 0 ∷ []) 0 ≡ (1 ∷ 2 ∷ 3 ∷ [], 3)
copy_frags_lem_example =
    copy_frags_lem ((1 ∷ 2 ∷ []) ∷ (3 ∷ 4 ∷ []) ∷ []) (0 ∷ 0 ∷ 0 ∷ []) 0 (omega arith)
