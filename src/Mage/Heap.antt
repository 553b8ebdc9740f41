-- ===== src/Mage/Heap.antt =====
-- Go maps from strings to strings that several objects refer to: a reference is nil or the address of a map.
use rhobs.Base.{
  ℕ, suc, ◌<◌, ◌≡◌, refl, ap, ◌==◌, nat_comparable, text_comparable, false, String, Option, none,
  some, [], ◌∷◌, arith,
}
use rhobs.Base.Dict.{Dict, lookup, insert, erase, lookup-insert}
use rhobs.Base.Outcome.{Outcome, ok, panic}

abbrev pub Ref : Type 0
Ref = Option ℕ

-- The maps by their addresses, and the address of the next one.
pub record Heap : Type 0 where
  pub fresh : ℕ
  pub maps : Dict ℕ (Dict String String)

abbrev pub map_or_empty : Option (Dict String String) → Dict String String
map_or_empty none = []
map_or_empty (some d) = d

-- What is read through a reference; nil reads as the empty map.
unfoldable pub read : Ref → Heap → Dict String String
unfolding lookup
read none h = []
read (some a) h = map_or_empty (lookup a h.maps)

-- A map literal, or `make`.
unfoldable pub make_map : Dict String String → Heap → Ref × Heap
unfolding insert
make_map d h = (some h.fresh, record { fresh = suc h.fresh; maps = insert h.fresh d h.maps })

-- `m[key] = value`, which panics on the nil map.
unfoldable pub assign : Ref → String → String → Heap → Outcome Heap
unfolding read insert
assign none k v h = panic "assignment to entry in nil map"
assign (some a) k v h = ok (record h { maps = insert a (insert k v (read (some a) h)) h.maps })

-- `delete(m, key)`, which does nothing on the nil map.
unfoldable pub remove : Ref → String → Heap → Heap
unfolding read insert erase
remove none k h = h
remove (some a) k h = record h { maps = insert a (erase k (read (some a) h)) h.maps }

-- The loop of `deepCopyMap`. Go leaves the order open in which it comes to the keys.
unfoldable pub copy_loop : Dict String String → Dict String String
unfolding insert
copy_loop [] = []
copy_loop ((k, v) ∷ d) = insert k v (copy_loop d)

unfoldable pub deep_copy_map : Ref → Heap → Ref × Heap
unfolding make_map copy_loop read
deep_copy_map none h = (none, h)
deep_copy_map (some a) h = make_map (copy_loop (read (some a) h)) h

-- A reference to a map that is there.
abbrev pub IsBelow : Ref → Heap → Type 0
IsBelow none h = Unit
IsBelow (some a) h = a < h.fresh

pub lookup-copy_loop : (k : String) (d : Dict String String) → lookup k (copy_loop d) ≡ lookup k d
unfolding lookup copy_loop
lookup-copy_loop k [] = refl
lookup-copy_loop k ((j, v) ∷ d) =
    ground (arith, lookup-insert k j v (copy_loop d), lookup-copy_loop k d)

lookup-other :
    (b a : ℕ) (d : Dict String String) (maps : Dict ℕ (Dict String String))
    → (a == b) ≡ false
    → lookup b (insert a d maps) ≡ lookup b maps
lookup-other b a d maps apart = ground (arith, lookup-insert b a d maps)

pub read-make_map :
    (r : Ref) (d : Dict String String) (h : Heap) → IsBelow r h → read r (make_map d h).1 ≡ read r h
unfolding read make_map
read-make_map none d h b = refl
read-make_map (some a) d h b =
    let apart : (h.fresh == a) ≡ false = ground (arith, b, nat_comparable.equal_iff h.fresh a) in
    ap map_or_empty (lookup-other a h.fresh d h.maps apart)

pub read-made : (d : Dict String String) (h : Heap) → read (some h.fresh) (make_map d h).1 ≡ d
unfolding read make_map
read-made d h =
    ground (arith, lookup-insert h.fresh h.fresh d h.maps, nat_comparable.equal_iff h.fresh h.fresh)

pub assign-returned :
    (k v : String) (a : ℕ) (h : Heap)
    → (g : Heap) × (assign (some a) k v h ≡ ok g)
      × (read (some a) g ≡ insert k v (read (some a) h))
      × ((b : ℕ) → (a == b) ≡ false → read (some b) g ≡ read (some b) h)
unfolding read assign
assign-returned k v a h =
    let new = insert k v (read (some a) h) in
    (
      record h { maps = insert a new h.maps },
      refl,
      ground (arith, lookup-insert a a new h.maps, nat_comparable.equal_iff a a),
      λ b apart. ap map_or_empty (lookup-other b a new h.maps apart),
    )

pub assign-fresh :
    (k v : String) (a : ℕ) (h g : Heap) → assign (some a) k v h ≡ ok g → g.fresh ≡ h.fresh
unfolding assign
assign-fresh k v a h g e = ground arith

pub remove_lem :
    (k : String) (a : ℕ) (h : Heap)
    → (read (some a) (remove (some a) k h) ≡ erase k (read (some a) h))
      × ((b : ℕ) → (a == b) ≡ false → read (some b) (remove (some a) k h) ≡ read (some b) h)
unfolding read remove
remove_lem k a h =
    let new = erase k (read (some a) h) in
    (
      ground (arith, lookup-insert a a new h.maps, nat_comparable.equal_iff a a),
      λ b apart. ap map_or_empty (lookup-other b a new h.maps apart),
    )
