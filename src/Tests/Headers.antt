-- ===== src/Tests/Headers.antt =====
-- Tests of the headers of fragments in src/agent.rs.
use async_dpdk.Base.{ℕ, ◌≡◌, ◌≢◌, refl, some, [], ◌∷◌, All, arith}
use async_dpdk.Mbuf.{Mem}
use async_dpdk.Agent.TxBuffer.Header.{
  EtherHdr, hdr_at, Sized, HeadroomDocs, stamped, populate_ether_hdr, populate_ether_hdr_lem,
}
use async_dpdk.Tests.Mbufs.{pktmbuf, pktmbuf-AreaDocs, two_segments}

abbrev hdr : EtherHdr
hdr = hdr_at (1 ∷ 2 ∷ 3 ∷ 4 ∷ 5 ∷ 6 ∷ 7 ∷ 8 ∷ 9 ∷ 10 ∷ 11 ∷ 12 ∷ 8 ∷ 0 ∷ 99 ∷ [])

hdr-Sized : Sized hdr
hdr-Sized = record { dst = refl; src = refl; type = refl }

pktmbuf-HeadroomDocs : HeadroomDocs pktmbuf
pktmbuf-HeadroomDocs = record { headroom_other = λ m x n xs mem h. refl }

populate_ether_hdr_lem_example :
    (mem' : Mem) × (populate_ether_hdr pktmbuf hdr (1 ∷ 2 ∷ []) two_segments.mem ≡ some mem')
    × All (λ m. mem' m ≡ stamped hdr (two_segments.mem m)) (1 ∷ 2 ∷ [])
    × ((x : ℕ) → All (λ m. m ≢ x) (1 ∷ 2 ∷ []) → mem' x ≡ two_segments.mem x)
populate_ether_hdr_lem_example =
    populate_ether_hdr_lem pktmbuf pktmbuf-AreaDocs pktmbuf-HeadroomDocs hdr hdr-Sized (1 ∷ 2 ∷ [])
      two_segments.mem ((omega arith, tt), (tt, tt)) (omega arith, (omega arith, tt))
