-- ===== src/Mbuf/Reading.antt =====
-- src/agent.rs and src/proto/udp.rs: what the receive functions do with an mbuf that they own. An early
-- return drops the mbuf; a header is read through a pointer cast, which is out of bounds where the
-- segment has fewer bytes than the header.
pub mod Steps
use async_dpdk.Base.{
  ℕ, suc, ◌+◌, ◌*◌, ◌≤◌, ◌<◌, ◌≡◌, ap, ◌∙◌, Bool, true, false, Option, none, some, List, [], ◌∷◌,
  length, get_elem?, ltb, leb, ◌==◌, if◌then◌else◌,
}
use async_dpdk.Errno.{Result, ok, err, panicked}
use async_dpdk.Mbuf.{RteMbuf, Mem, Store, Pktmbuf, data_len, drop_mbuf, adj, pop_mbuf}

-- `Some`, `None`, or a read behind the end of a segment's data.
pub data Parsed {ℓ} (A : Type ℓ) : Type ℓ where
  parsed : A → Parsed A
  ignored : Parsed A
  out_of_bounds : Parsed A

abbrev pub Handler : Type 0 → Type 0
Handler A = Store → Parsed A × Store

-- What `f` makes of a step's outcome.
abbrev pub after : {A B : Type 0} → (A → Handler B) → Parsed A × Store → Parsed B × Store
after f (parsed a, st) = f a st
after f (ignored, st) = (ignored, st)
after f (out_of_bounds, st) = (out_of_bounds, st)

infixl 5 ◌>>=◌ ◌>>◌
unfoldable pub ◌>>=◌ : {A B : Type 0} → Handler A → (A → Handler B) → Handler B
◌>>=◌ m f st = after f (m st)

abbrev pub ◌>>◌ : {B : Type 0} → Handler (Unit {0}) → Handler B → Handler B
m >> k = m >>= λ _. k

-- A step that yields a value is left behind, and one that yields none ends the run.
pub bind-parsed :
    {A B : Type 0} (m : Handler A) (f : A → Handler B) {st st' : Store} {a : A}
    {r : Parsed B × Store}
    → m st ≡ (parsed a, st')
    → f a st' ≡ r
    → ◌>>=◌ m f st ≡ r
unfolding ◌>>=◌
bind-parsed m f e q = ap (after f) e ∙ q

pub bind-ignored :
    {A B : Type 0} (m : Handler A) (f : A → Handler B) {st st' : Store}
    → m st ≡ (ignored, st')
    → ◌>>=◌ m f st ≡ (ignored, st')
unfolding ◌>>=◌
bind-ignored m f e = ap (after f) e

pub bind-out_of_bounds :
    {A B : Type 0} (m : Handler A) (f : A → Handler B) {st st' : Store}
    → m st ≡ (out_of_bounds, st')
    → ◌>>=◌ m f st ≡ (out_of_bounds, st')
unfolding ◌>>=◌
bind-out_of_bounds m f e = ap (after f) e

-- A byte of a header that was found to be there.
abbrev pub byte : ℕ → List ℕ → ℕ
byte i xs = elim (get_elem? xs i) [ none ↦ 0 | some b ↦ b ]

-- A `u16` in memory, read by a machine with the low byte first, and by one with the high byte first.
abbrev pub u16_le : ℕ → List ℕ → ℕ
u16_le i xs = byte i xs + 256 * byte (suc i) xs

abbrev pub u16_be : ℕ → List ℕ → ℕ
u16_be i xs = 256 * byte i xs + byte (suc i) xs

-- `&*(m.data_slice().as_ptr().cast::<Header>())`
unfoldable pub header : ℕ → ℕ → Handler (List ℕ)
header size m st =
    if leb size (data_len st.mem m) then (parsed (st.mem m).content, st) else (out_of_bounds, st)

module _ (lib : Pktmbuf) where
  -- `return None` with the mbuf still owned.
  abbrev pub give_up : {A : Type 0} → ℕ → Handler A
  give_up m st = (ignored, drop_mbuf lib m st)

  -- `m.adj(len).ok()?`
  unfoldable pub adj_or_drop : ℕ → ℕ → Handler (Unit {0})
  adj_or_drop m len st = elim (adj lib m len st).0 [
    | ok _ ↦ (parsed tt, (adj lib m len st).1)
    | err _ ↦ (ignored, drop_mbuf lib m (adj lib m len st).1)
    | panicked ↦ (ignored, drop_mbuf lib m (adj lib m len st).1)
  ]

  -- `m = m.pop_mbuf()?`
  unfoldable pub pop_or_end : ℕ → Handler ℕ
  pop_or_end m st = elim (pop_mbuf lib m st).0 [
    | some p ↦ (parsed p, (pop_mbuf lib m st).1)
    | none ↦ (ignored, (pop_mbuf lib m st).1)
  ]

  -- The segment that a header of `size` bytes is read from: an empty one is popped, a shorter one is
  -- given up.
  unfoldable pub skip_empty : ℕ → ℕ → Handler ℕ
  unfolding pop_or_end
  skip_empty size m st =
      if ltb (data_len st.mem m) size
      then (if data_len st.mem m == 0 then pop_or_end m st else give_up m st)
      else (parsed m, st)

  -- An empty segment is popped.
  unfoldable pub skip_end : ℕ → Handler ℕ
  unfolding pop_or_end
  skip_end m st = if data_len st.mem m == 0 then pop_or_end m st else (parsed m, st)
