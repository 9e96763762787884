-- ===== src/Mbuf/IterMut.antt =====
-- src/mbuf.rs: writing the data of a packet through `iter_mut`. An `MbufRefMut` is the pointer that it holds: its
-- `ManuallyDrop` gives nothing back.
use async_dpdk.Base.{
  ℕ, zero, suc, ◌≤◌, ◌≡◌, ◌≢◌, refl, sym, ap, ap₂, ◌∙◌, Option, none, some, List, [], ◌∷◌, map,
  length, update, All, Distinct, arith,
}
use async_dpdk.Mbuf.{RteMbuf, Mem, new_with_ptr}
use async_dpdk.Mbuf.Chains.{
  first, Linked, contents, total, IsPacket, Linked-same, All-map, All-both,
}
use async_dpdk.Errno.{ok, err, panicked}

-- `MbufRefMut::new`, the `ok` of a `Result`
abbrev pub ref_mut : Option ℕ → Option ℕ
ref_mut p = elim (new_with_ptr p) [ ok m ↦ some m | err e ↦ none | panicked ↦ none ]

-- `MbufIterMut::next`: the item, and the iterator's pointer behind it, which is read before the item is used.
unfoldable pub iter_mut_next : Mem → Option ℕ → Option (ℕ × Option ℕ)
iter_mut_next mem cur = elim (ref_mut cur) [ none ↦ none | some p ↦ some (p, (mem p).next) ]

-- A write through `data_slice_mut`.
abbrev pub write_data : (List ℕ → List ℕ) → ℕ → Mem → Mem
write_data f p mem = update mem p (record (mem p) { content = f (mem p).content })

-- `for seg in m.iter_mut()` with a body that writes the data of `seg`, for at most `fuel` items.
unfoldable pub for_each_mut : ℕ → (List ℕ → List ℕ) → Option ℕ → Mem → Mem
for_each_mut zero f cur mem = mem
for_each_mut (suc fuel) f cur mem = elim (iter_mut_next mem cur) [
  | none ↦ mem
  | some (p, next) ↦ for_each_mut fuel f next (write_data f p mem)
]

-- A segment with other bytes.
abbrev pub rewritten : (List ℕ → List ℕ) → RteMbuf → RteMbuf
rewritten f m = record m { content = f m.content }

write_data_self :
    (f : List ℕ → List ℕ) (p : ℕ) (mem : Mem) → write_data f p mem p ≡ rewritten f (mem p)
write_data_self f p mem = ground arith

write_data_other :
    (f : List ℕ → List ℕ) (p x : ℕ) (mem : Mem) → p ≢ x → write_data f p mem x ≡ mem x
write_data_other f p x mem n = ground arith

module _ (f : List ℕ → List ℕ) where
  for_each_mut-next :
      (fuel p : ℕ) (mem : Mem)
      → for_each_mut (suc fuel) f (some p) mem
        ≡ for_each_mut fuel f (mem p).next (write_data f p mem)
  unfolding for_each_mut iter_mut_next
  for_each_mut-next fuel p mem = refl

  for_each_mut_end : (fuel : ℕ) (mem : Mem) → for_each_mut fuel f none mem ≡ mem
  unfolding for_each_mut iter_mut_next
  for_each_mut_end zero mem = refl
  for_each_mut_end (suc fuel) mem = refl

  -- The loop over linked, distinct segments writes each of them once, and nothing else.
  each_once :
      (ps : List ℕ) (fuel : ℕ) (mem : Mem)
      → Linked mem ps
      → Distinct ps
      → length ps ≤ fuel
      → All (λ p. for_each_mut fuel f (first ps) mem p ≡ rewritten f (mem p)) ps
        × ((x : ℕ) → All (λ p. p ≢ x) ps → for_each_mut fuel f (first ps) mem x ≡ mem x)
  each_once [] fuel mem l d h = (tt, λ x n. ap (λ (m : Mem). m x) (for_each_mut_end fuel mem))
  each_once (p ∷ ps) zero mem l d h = absurd (omega arith)
  each_once (p ∷ ps) (suc fuel) mem (l, ls) (a, d) h =
      let mem1 = write_data f p mem in
      let same = All-map ps (λ x n. write_data_other f p x mem n) a in
      let links =
        Linked-same ps mem mem1 (All-map ps (λ x e. ap (λ (m : RteMbuf). m.next) e) same) ls in
      let (all, other) = each_once ps fuel mem1 links d (omega arith) in
      let step : for_each_mut (suc fuel) f (some p) mem ≡ for_each_mut fuel f (first ps) mem1 =
        for_each_mut-next fuel p mem ∙ ap (λ n. for_each_mut fuel f n mem1) l in
      let here = λ (x : ℕ). ap (λ (m : Mem). m x) step in
      (
        (
          here p ∙ other p (All-map ps (λ x n e. n (sym e)) a) ∙ write_data_self f p mem,
          All-map ps (λ x (e, q). here x ∙ q ∙ ap (rewritten f) e)
              (All-both (λ x. mem1 x ≡ mem x)
                (λ x. for_each_mut fuel f (first ps) mem1 x ≡ rewritten f (mem1 x)) ps same all),
        ),
        λ x (n, ns). here x ∙ other x ns ∙ write_data_other f p x mem n,
      )

  contents-rewritten :
      (ps : List ℕ) (mem mem' : Mem)
      → All (λ p. mem' p ≡ rewritten f (mem p)) ps
      → contents mem' ps ≡ map f (contents mem ps)
  contents-rewritten [] mem mem' h = refl
  contents-rewritten (p ∷ ps) mem mem' (e, h) =
      ap₂ ◌∷◌ (ap (λ (m : RteMbuf). m.content) e) (contents-rewritten ps mem mem' h)

  total-rewritten :
      (ps : List ℕ) (mem mem' : Mem)
      → ((xs : List ℕ) → length (f xs) ≡ length xs)
      → All (λ p. mem' p ≡ rewritten f (mem p)) ps
      → total mem' ps ≡ total mem ps
  total-rewritten [] mem mem' k h = refl
  total-rewritten (p ∷ ps) mem mem' k (e, h) = omega (
    arith,
    k (mem p).content,
    ap (λ (m : RteMbuf). length m.content) e,
    total-rewritten ps mem mem' k h,
  )

  -- Writing the data of a packet through `iter_mut` with a function that keeps the length of a segment's data,
  -- with fuel for as many items as the packet has segments: the data of each segment is written
  -- once, it is a packet of the same segments still, and no other mbuf changes.
  pub for_each_mut-IsPacket :
      (fuel p : ℕ) (ps : List ℕ) (mem : Mem)
      → IsPacket mem p ps
      → ((xs : List ℕ) → length (f xs) ≡ length xs)
      → length (p ∷ ps) ≤ fuel
      → (contents (for_each_mut fuel f (some p) mem) (p ∷ ps) ≡ map f (contents mem (p ∷ ps)))
        × IsPacket (for_each_mut fuel f (some p) mem) p ps
        × ((x : ℕ) → All (λ q. q ≢ x) (p ∷ ps) → for_each_mut fuel f (some p) mem x ≡ mem x)
  for_each_mut-IsPacket fuel p ps mem v k h =
      let mem' = for_each_mut fuel f (some p) mem in
      let (all, other) = each_once (p ∷ ps) fuel mem v.linked v.distinct h in
      (
        contents-rewritten (p ∷ ps) mem mem' all,
        record {
          linked =
              Linked-same (p ∷ ps) mem mem'
                (All-map (p ∷ ps) (λ x e. ap (λ (m : RteMbuf). m.next) e) all) v.linked;
          bounded = v.bounded;
          distinct = v.distinct;
          counted = ap (λ (m : RteMbuf). m.nb_segs) all.0 ∙ v.counted;
          measured =
              ap (λ (m : RteMbuf). m.pkt_len) all.0
              ∙ v.measured
              ∙ sym (total-rewritten (p ∷ ps) mem mem' k all);
        },
        other,
      )
