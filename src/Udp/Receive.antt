-- ===== src/Udp/Receive.antt =====
-- src/proto/udp.rs: what `recv_from` copies.
use native.Mathlib.Decide.{dec_le}
use async_dpdk.Base.{
  ℕ, zero, suc, ◌+◌, ◌^◌, ◌≤◌, ◌<◌, ◌≡◌, refl, sym, ap, ap₂, ◌∙◌, false, List, [], ◌∷◌, ◌++◌,
  length, take, drop, min, ◌==◌, add_usize, length-append, length-drop, arith, append_assoc,
}
use async_dpdk.Udp.{copy_frags}

-- All the bytes of a datagram.
abbrev pub joined : List (List ℕ) → List ℕ
joined [] = []
joined (f ∷ fs) = f ++ joined fs

module _ {ℓ} {A : Type ℓ} where
  -- The front of two lists, for a number within the first.
  take_left : (n : ℕ) (xs ys : List A) → n ≤ length xs → take n (xs ++ ys) ≡ take n xs
  take_left zero xs ys h = refl
  take_left (suc n) [] ys h = absurd (omega arith)
  take_left (suc n) (x ∷ xs) ys h = ap (◌∷◌ x) (take_left n xs ys (omega arith))

  take_all :
      (xs ys : List A) (n : ℕ) → take (length xs + n) (xs ++ ys) ≡ take (length xs) xs ++ take n ys
  take_all [] ys n = ap (λ k. take k ys) plus_zero
    where
      plus_zero : 0 + n ≡ n
      plus_zero = omega arith
  take_all (x ∷ xs) ys n = ap (λ k. take k (x ∷ (xs ++ ys))) shift ∙ ap (◌∷◌ x) (take_all xs ys n)
    where
      shift : suc (length xs) + n ≡ suc (length xs + n)
      shift = omega arith

  drop_nil : (n : ℕ) → drop {A = A} n [] ≡ []
  drop_nil zero = refl
  drop_nil (suc n) = refl

  pub drop-drop : (m n : ℕ) (xs : List A) → drop n (drop m xs) ≡ drop (m + n) xs
  drop-drop zero n xs = ap (λ k. drop k xs) plus_zero
    where
      plus_zero : n ≡ 0 + n
      plus_zero = omega arith
  drop-drop (suc m) n [] = drop_nil n ∙ sym (drop_nil (suc m + n))
  drop-drop (suc m) n (x ∷ xs) = drop-drop m n xs ∙ ap (λ k. drop k (x ∷ xs)) shift
    where
      shift : suc (m + n) ≡ suc m + n
      shift = omega arith

copy_frags-full :
    (frag : List ℕ) (frags : List (List ℕ)) (buf : List ℕ) (len : ℕ)
    → length buf ≤ length frag
    → copy_frags (frag ∷ frags) buf len
      ≡ (take (length buf) frag ++ drop (length buf) buf, add_usize len (length buf))
unfolding copy_frags
copy_frags-full frag frags buf len h =
    let sz : min (length frag) (length buf) ≡ length buf = omega arith in
    let gone : length (drop (length buf) buf) ≡ 0 = omega (arith, length-drop (length buf) buf) in
    rw (sz, gone)

copy_frags-more :
    (frag : List ℕ) (frags : List (List ℕ)) (buf : List ℕ) (len : ℕ)
    → length frag < length buf
    → let r = copy_frags frags (drop (length frag) buf) (add_usize len (length frag)) in
      copy_frags (frag ∷ frags) buf len ≡ (take (length frag) frag ++ r.0, r.1)
unfolding copy_frags
copy_frags-more frag frags buf len h =
    let sz : min (length frag) (length buf) ≡ length frag = omega arith in
    let left : (length (drop (length frag) buf) == 0) ≡ false =
      ground (arith, length-drop (length frag) buf) in
    rw (sz, left)

both : {a b : List ℕ} {m n : ℕ} → a ≡ b → m ≡ n → ◌≡◌ {A = List ℕ × ℕ} (a, m) (b, n)
both p q = λ i. (p i, q i)

-- What `recv_from` leaves in a buffer for the bytes `xs`, behind `len` bytes copied before.
abbrev pub received : List ℕ → List ℕ → ℕ → List ℕ × ℕ
received xs buf len = let n = min (length xs) (length buf) in (take n xs ++ drop n buf, len + n)

-- `recv_from` copies the front of the datagram, as much as the buffer holds, leaves the rest of the
-- buffer alone, and returns the number of bytes copied, for any cut of the datagram into fragments.
pub copy_frags_lem :
    (frags : List (List ℕ)) (buf : List ℕ) (len : ℕ)
    → len + length buf < 2 ^ 64
    → copy_frags frags buf len ≡ received (joined frags) buf len
unfolding copy_frags
copy_frags_lem [] buf len h =
    let none_copied : min 0 (length buf) ≡ 0 = omega arith in
    rw none_copied (both refl (omega arith))
copy_frags_lem (frag ∷ frags) buf len h = elim (dec_le (length buf) (length frag)) [
  | yes full ↦
      let n : min (length (frag ++ joined frags)) (length buf) ≡ length buf =
        omega (arith, length-append frag (joined frags)) in
      copy_frags-full frag frags buf len full
      ∙ rw (n, take_left (length buf) frag (joined frags) full) (both refl (omega arith))
  | no more ↦
      let rest = drop (length frag) buf in
      let len' = add_usize len (length frag) in
      let small : len' ≡ len + length frag = omega arith in
      let room = length-drop (length frag) buf in
      let ih = copy_frags_lem frags rest len' (omega arith) in
      let m = min (length (joined frags)) (length rest) in
      let n : min (length (frag ++ joined frags)) (length buf) ≡ length frag + m =
        omega (arith, length-append frag (joined frags), room) in
      copy_frags-more frag frags buf len (omega arith)
      ∙ ap (λ (r : List ℕ × ℕ). (take (length frag) frag ++ r.0, r.1)) ih
      ∙ both
          (sym (append_assoc (take (length frag) frag) (take m (joined frags)) (drop m rest))
            ∙ ap₂ ◌++◌ (sym (take_all frag (joined frags) m)) (drop-drop (length frag) m buf)
            ∙ ap (λ (k : ℕ). take k (frag ++ joined frags) ++ drop k buf) (sym n))
          (omega (arith, small, n))
]
