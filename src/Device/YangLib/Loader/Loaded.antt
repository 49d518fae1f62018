-- ===== src/Device/YangLib/Loader/Loaded.antt =====
-- What a client loads (device/yang_lib.go) from the list of modules of a server (device/yang_lib_node.go).
use mathlib.Core.List.{Mem, Perm, map, mem-cons, mem-cons_of_mem, not-mem-nil}
use mathlib.Core.List.Perm
use mathlib.Core.Logic.Or
use restconf.Prelude.{
  ap₂, true, Bool, ℕ, Option, none, some, List, [], ◌∷◌, ◌≡◌, refl, sym, ◌∙◌, ap, arith, All,
  length, get_elem?, ◌<◌, Bool-cases, inl, inr, Option-cases,
}
use restconf.Text.{Bytes, beq}
use restconf.Text.Laws.{beq_iff}
use restconf.Errors.{Error, Result, ok}
use restconf.Maps.{find, store}
use restconf.Maps.Laws.{find-store, IsMap}
use restconf.Device.{Meta}
use restconf.Device.YangLib.{LibNode, module_handle, Entry, less, keys, module_list_next}
use restconf.Device.YangLib.Rows.{
  rows, entries, module_list_rows, find_self, All-of_mem, Option-Meta_prop,
}
use restconf.Device.YangLib.Loader.{
  ModuleHnd, NewEntry, load_modules_list_node, load_modules, new_hnd,
}

unless_failed :
    Option Error × List (Bytes × Meta)
    → (List (Bytes × Meta) → Option Error × List (Bytes × Meta))
    → Option Error × List (Bytes × Meta)
unless_failed (some e, mods) rest = (some e, mods)
unless_failed (none, mods) rest = rest mods

-- An insertion that hands the new entries over one by one, up to the first error.
pub each :
    (NewEntry → List (Bytes × Meta) → Option Error × List (Bytes × Meta))
    → List NewEntry
    → List (Bytes × Meta)
    → Option Error × List (Bytes × Meta)
unfolding unless_failed
each f [] mods = (none, mods)
each f (e ∷ es) mods = unless_failed (f e mods) (each f es)

first_of_key : Option (List Bytes) → Bytes
first_of_key none = []
first_of_key (some []) = []
first_of_key (some (k ∷ ks)) = k

-- The new entry that an entry of a list is copied to, by what is written to the handle.
pub copied : (LibNode → ModuleHnd → ModuleHnd) → Entry → NewEntry
unfolding first_of_key
copied fill (node, key) = record { key = first_of_key key; fill = fill node; end_edit = none }

-- The modules, stored one by one.
stored : List (Bytes × Meta) → List (Bytes × Meta) → List (Bytes × Meta)
stored acc [] = acc
stored acc ((k, m) ∷ l) = stored (store acc m.ident m) l

module _ (mods : List (Bytes × Meta)) where
  Known : Bytes × Meta → Type 0
  Known (k, m) = (m.ident ≡ k) × (find mods k ≡ some m)

  store-Known :
      (acc : List (Bytes × Meta)) (e : Bytes × Meta) (k : Bytes)
      → Known e
      → find acc k ≡ find mods k
      → find (store acc e.1.ident e.1) k ≡ find mods k
  unfolding Known
  store-Known acc e k (named, known) agrees =
      find-store acc e.1.ident k e.1 ∙ elim (Bool-cases (beq e.1.ident k)) [
        | inl same ↦ rw same (sym (rw (← (sym named ∙ (beq_iff e.1.ident k).0 same)) known))
        | inr other ↦ rw other agrees
      ]

  stored_keeps :
      (l acc : List (Bytes × Meta)) (k : Bytes)
      → All Known l
      → find acc k ≡ find mods k
      → find (stored acc l) k ≡ find mods k
  unfolding stored
  stored_keeps [] acc k h agrees = agrees
  stored_keeps (e ∷ l) acc k h agrees =
      stored_keeps l (store acc e.1.ident e.1) k h.1 (store-Known acc e k h.0 agrees)

  -- The entry itself is there once it was stored.
  stored_reaches :
      (l acc : List (Bytes × Meta)) (e : Bytes × Meta)
      → All Known l
      → Mem e l
      → find (stored acc l) e.0 ≡ find mods e.0
  unfolding stored Known
  stored_reaches [] acc e h i = absurd (not-mem-nil i)
  stored_reaches (x ∷ l) acc e h i =
      Or.elim (Option-Meta_prop _ _) (mem-cons.0 i)
        (λ q.
          let there : find (store acc x.1.ident x.1) e.0 ≡ find mods e.0 =
            let key : e.0 ≡ x.0 = ap (λ (z : Bytes × Meta). z.0) q in
            let hit : beq x.1.ident e.0 ≡ true = (beq_iff x.1.ident e.0).1 (h.0.0 ∙ sym key) in
            find-store acc x.1.ident e.0 x.1 ∙ rw hit (sym (ap (find mods) key ∙ h.0.1)) in
          stored_keeps l (store acc x.1.ident x.1) e.0 h.1 there)
        (λ later. stored_reaches l (store acc x.1.ident x.1) e h.1 later)

  -- What is not in the map is not stored either.
  stored_none :
      (l acc : List (Bytes × Meta)) (k : Bytes)
      → All Known l
      → find mods k ≡ none
      → find acc k ≡ none
      → find (stored acc l) k ≡ none
  stored_none l acc k h gone empty = stored_keeps l acc k h (empty ∙ sym gone) ∙ gone

mem_of_find : (m : List (Bytes × Meta)) (k : Bytes) (v : Meta) → find m k ≡ some v → Mem (k, v) m
unfolding find
mem_of_find [] k v e = absurd (cc e)
mem_of_find ((j, w) ∷ m) k v e = elim (Bool-cases (beq j k)) [
  | inl same ↦
      let e' : v ≡ w = ground arith in
      mem-cons.1 (Or.inl (ap₂ (λ (a : Bytes) (b : Meta). (a, b)) (sym ((beq_iff j k).0 same)) e'))
  | inr other ↦ mem-cons_of_mem (j, w) (mem_of_find m k v (ground arith))
]

module _ (resolve_module_hnd : ModuleHnd → Result Meta) (fill : LibNode → ModuleHnd → ModuleHnd)
    (mods : List (Bytes × Meta))
    (kept_name : (n : LibNode) (h : ModuleHnd) → (fill n h).name ≡ h.name)
    (resolves : (h : ModuleHnd) (m : Meta)
      → find mods h.name ≡ some m
      → resolve_module_hnd h ≡ ok m) where
  loads_entry :
      (m : Meta) (acc : List (Bytes × Meta))
      → find mods m.ident ≡ some m
      → load_modules_list_node resolve_module_hnd
          (copied fill (module_handle m, some (m.ident ∷ [])))
          acc
        ≡ (none, store acc m.ident m)
  unfolding load_modules_list_node copied
  loads_entry m acc known =
      let n = module_handle m in
      let hnd = fill n (new_hnd m.ident) in
      let found : find mods hnd.name ≡ some m =
        ap (find mods) (kept_name n (new_hnd m.ident)) ∙ known in
      rw (resolves hnd m found) refl

  each_stores :
      (l acc : List (Bytes × Meta))
      → All (Known mods) l
      → each
          (load_modules_list_node resolve_module_hnd)
          (map (copied fill) (entries module_handle l))
          acc
        ≡ (none, stored acc l)
  unfolding each stored Known
  each_stores [] acc h = refl
  each_stores ((k, m) ∷ l) acc h =
      rw (loads_entry m acc (ap (find mods) h.0.0 ∙ h.0.1))
        (each_stores l (store acc m.ident m) h.1)

  -- A client that copies the rows of a server's list of modules, one new entry for each row, has the
  -- modules of the server after it: under each name the same module, and none where the server has
  -- none. The names come over, and the schema of a name that the server has can be resolved to the
  -- server's module; the server's modules stand under their names, and its index is one of its keys.
  pub load_modules_copies :
      {Sel : Type 0}
      (insert_into : Sel
        → (NewEntry → List (Bytes × Meta) → Option Error × List (Bytes × Meta))
        → List (Bytes × Meta)
        → Option Error × List (Bytes × Meta))
      (sel : Sel) (next_key : (Bytes → Bytes → Bool) → List Bytes → ℕ → Option Bytes)
      (sorted : List (Bytes × Meta)) (fuel : ℕ) (es : List Entry)
      → IsMap mods
      → ((k : Bytes) (m : Meta) → find mods k ≡ some m → m.ident ≡ k)
      → Perm sorted mods
      → ((row : ℕ) → next_key less (keys mods) row ≡ get_elem? (keys sorted) row)
      → length sorted < fuel
      → rows (λ row. module_list_next next_key mods (record { key = none; row = row })) fuel 0
        ≡ some es
      → ((f : NewEntry → List (Bytes × Meta) → Option Error × List (Bytes × Meta))
            (acc : List (Bytes × Meta))
          → insert_into sel f acc ≡ each f (map (copied fill) es) acc)
      → (loaded : List (Bytes × Meta)) × (load_modules resolve_module_hnd insert_into (ok sel)
          ≡ ok loaded)
        × ((k : Bytes) → find loaded k ≡ find mods k)
  unfolding load_modules
  load_modules_copies insert_into sel next_key sorted fuel es once named same indexed enough listed
        copies =
      let there = (module_list_rows next_key mods sorted fuel once same indexed enough).0 in
      let same_rows : es ≡ entries module_handle sorted = cc (listed, there) in
      let known : All (Known mods) sorted = All-of_mem (Known mods) sorted (λ e i.
        let found = find_self mods once e ((Perm.mem_iff same).0 i) in
        unfold Known in (named e.0 e.1 found, found)) in
      (
        stored [] sorted,
        rw
            (
              copies (load_modules_list_node resolve_module_hnd) [],
              same_rows,
              each_stores sorted [] known,
            )
            refl,
        λ k. elim (Option-cases (find mods k)) [
          | inl gone ↦ stored_none mods sorted [] k known gone (unfold find in refl) ∙ sym gone
          | inr (m, e) ↦
              stored_reaches mods sorted [] (k, m) known
                ((Perm.mem_iff same).1 (mem_of_find mods k m e))
        ],
      )
