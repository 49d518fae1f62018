-- ===== src/Device/YangLib/Rows.antt =====
-- The rows of the lists of a YANG library (device/yang_lib_node.go).
use mathlib.Core.List.{Mem, Perm, mem-cons, mem-cons_self, mem-cons_of_mem, not-mem-nil, map}
use mathlib.Core.List.Perm
use mathlib.Core.Logic.Or
use mathlib.Core.Option
use native.Mathlib.Nat.{zero-add}
use restconf.Prelude.{
  Bool, ℕ, zero, suc, ◌+◌, ◌<◌, none, some, List, [], ◌∷◌, ◌≡◌, refl, ap, arith, length, get_elem?,
  All, Bool-cases, inl, inr,
}
use restconf.Text.{Bytes, beq}
use restconf.Text.Laws.{beq_iff, beq_self}
use restconf.Errors.{Run, panicked, ret}
use restconf.Maps.{find}
use restconf.Maps.Laws.{IsMap}
use restconf.Device.{Meta}
use restconf.Device.YangLib.{
  LibNode, module_handle, module_set_module_handle, Entry, less, keys, next_with, at_row,
  module_list_next, module_set_module_list_next,
}

pub Option-Meta_prop : (a b : Option.Option Meta) → IsProp (a ≡ b)
Option-Meta_prop a b = hlevel

collect : Run (Option.Option Entry) → Option.Option (List Entry) → Option.Option (List Entry)
collect panicked rest = none
collect (ret none) rest = some []
collect (ret (some e)) rest = Option.map (◌∷◌ e) rest

-- What a reader gets who asks for one row after the other until there is none: `none` if that does
-- not end within the fuel, or panics.
pub rows : (ℕ → Run (Option.Option Entry)) → ℕ → ℕ → Option.Option (List Entry)
rows next zero row = none
rows next (suc fuel) row = let rest = rows next fuel (suc row) in collect (next row) rest

rows-eq-some :
    (next : ℕ → Run (Option.Option Entry)) (es : List Entry) (fuel row : ℕ)
    → length es < fuel
    → ((i j : ℕ) → j ≡ row + i → next j ≡ ret (get_elem? es i))
    → rows next fuel row ≡ some es
unfolding rows collect
rows-eq-some next es zero row h k = absurd (omega arith)
rows-eq-some next [] (suc fuel) row h k = rw (k 0 row (omega arith)) refl
rows-eq-some next (e ∷ es) (suc fuel) row h k =
    rw
      (
        k 0 row (omega arith),
        rows-eq-some next es fuel (suc row) (omega arith) (λ i j q. k (suc i) j (omega arith)),
      )
      refl

pub find_self :
    (m : List (Bytes × Meta)) → IsMap m → (e : Bytes × Meta) → Mem e m → find m e.0 ≡ some e.1
unfolding find
find_self [] h e i = absurd (not-mem-nil i)
find_self ((k, v) ∷ m) h e i =
    Or.elim (Option-Meta_prop _ _) (mem-cons.0 i) (λ q. rw (q, beq_self k) refl)
      (λ later.
        let known = find_self m h.1 e later in
        elim (Bool-cases (beq k e.0)) [
          | inl same ↦ absurd (cc (h.0, (beq_iff k e.0).0 same, known))
          | inr other ↦ rw other known
        ])

pub All-of_mem :
    (P : Bytes × Meta → Type 0) (l : List (Bytes × Meta))
    → ((e : Bytes × Meta) → Mem e l → P e)
    → All P l
All-of_mem P [] h = tt
All-of_mem P (e ∷ l) h = (h e mem-cons_self, All-of_mem P l (λ x i. h x (mem-cons_of_mem e i)))

-- What the rows are to hold: the node of each module, with its name for its key.
abbrev pub entries : (Meta → LibNode) → List (Bytes × Meta) → List Entry
entries handle = map (λ e. (handle e.1, some (e.1.ident ∷ [])))

length-entries :
    (handle : Meta → LibNode) (l : List (Bytes × Meta)) → length (entries handle l) ≡ length l
length-entries handle [] = refl
length-entries handle (e ∷ l) = omega (arith, length-entries handle l)

module _ (next_key : (Bytes → Bytes → Bool) → List Bytes → ℕ → Option.Option Bytes)
    (mods : List (Bytes × Meta)) where
  at_row-entries :
      (handle : Meta → LibNode) (l : List (Bytes × Meta)) (i : ℕ)
      → All (λ e. find mods e.0 ≡ some e.1) l
      → at_row next_key Meta.ident handle mods (get_elem? (keys l) i)
        ≡ get_elem? (entries handle l) i
  unfolding at_row keys
  at_row-entries handle [] i h = refl
  at_row-entries handle (e ∷ l) zero h = rw h.0 refl
  at_row-entries handle (e ∷ l) (suc i) h = at_row-entries handle l i h.1

  module _ (sorted : List (Bytes × Meta)) (fuel : ℕ) (once : IsMap mods) (same : Perm sorted mods)
      (indexed : (row : ℕ) → next_key less (keys mods) row ≡ get_elem? (keys sorted) row)
      (enough : length sorted < fuel) where
    rows_with :
        (handle : Meta → LibNode)
        → rows (λ row. next_with next_key Meta.ident handle mods none row) fuel 0
          ≡ some (entries handle sorted)
    unfolding next_with
    rows_with handle =
        let known : All (λ (e : Bytes × Meta). find mods e.0 ≡ some e.1) sorted =
          All-of_mem (λ e. find mods e.0 ≡ some e.1) sorted
            (λ e i. find_self mods once e ((Perm.mem_iff same).0 i)) in
        rows-eq-some (λ row. next_with next_key Meta.ident handle mods none row)
          (entries handle sorted) fuel 0 (omega (arith, length-entries handle sorted))
          (λ i j q. rw (q, zero-add, indexed i) (ap ret (at_row-entries handle sorted i known)))

    pub module_list_rows :
        (rows (λ row. module_list_next next_key mods (record { key = none; row = row })) fuel 0
          ≡ some (entries module_handle sorted))
        × (rows
              (λ row. module_set_module_list_next next_key mods (record { key = none; row = row }))
              fuel
              0
            ≡ some (entries module_set_module_handle sorted))
    unfolding module_list_next module_set_module_list_next
    module_list_rows = (rows_with module_handle, rows_with module_set_module_handle)
