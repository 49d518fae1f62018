-- ===== src/Client/Location.antt =====
-- The device id that a client finds in its address, and the paths that its requests have on the server.
use restconf.Prelude.{
  ℕ, suc, ◌+◌, ◌<◌, ◌≡◌, refl, sym, ap, ◌∙◌, ◌≢◌, inl, inr, true, false, Option, none, some, [],
  ◌∷◌, ◌++◌, arith, if◌then◌else◌, Bool-cases, length, drop, length-append, take-append,
  append_assoc, ◌&&◌,
}
use restconf.Prelude.{drop_at, not}
use restconf.Text.{Bytes, codes, is_empty, index, contains, has_prefix}
use restconf.Text.Laws.{has_prefix-append, Lacks, Lacks-append}
use restconf.Errors.{Result, ok, ret}
use restconf.Address.{ends_in}
use restconf.Address.Join.{ends_in-append}
use restconf.Compliance.{ComplianceOptions}
use restconf.Server.{device_address}
use restconf.Client.{
  device_mark, find_device_id_in_url, with_slash, Address, NodePath, full_url, new_address,
  without_last, device_behind, address_of, parsed, with_device,
}

-- A text that ends in `c` is no prefix where `c` comes later, or not at all.
has_prefix_late :
    (p : Bytes) (c : ℕ) (q t : Bytes)
    → Lacks c q
    → length p < length q
    → has_prefix (q ++ t) (p ++ c ∷ []) ≡ false
unfolding has_prefix
has_prefix_late [] c [] t h k = absurd (omega arith)
has_prefix_late [] c (x ∷ q) t h k = ground arith
has_prefix_late (y ∷ p) c [] t h k = absurd (omega arith)
has_prefix_late (y ∷ p) c (x ∷ q) t h k =
    let ih = has_prefix_late p c q t h.1 (omega arith) in ground arith

has_prefix_of_Lacks :
    (p : Bytes) (c : ℕ) (s : Bytes) → Lacks c s → has_prefix s (p ++ c ∷ []) ≡ false
unfolding has_prefix
has_prefix_of_Lacks [] c [] h = refl
has_prefix_of_Lacks [] c (x ∷ s) h = ground arith
has_prefix_of_Lacks (y ∷ p) c [] h = refl
has_prefix_of_Lacks (y ∷ p) c (x ∷ s) h = let ih = has_prefix_of_Lacks p c s h.1 in ground arith

index_of_Lacks : (p : Bytes) (c : ℕ) (s : Bytes) → Lacks c s → index s (p ++ c ∷ []) ≡ none
unfolding index
index_of_Lacks p c [] h = rw (has_prefix_of_Lacks p c [] h) refl
index_of_Lacks p c (x ∷ s) h = rw (has_prefix_of_Lacks p c (x ∷ s) h, index_of_Lacks p c s h.1) refl

index_of_prefix : (s sep : Bytes) → has_prefix s sep ≡ true → index s sep ≡ some 0
unfolding index
index_of_prefix [] sep h = rw h refl
index_of_prefix (x ∷ s) sep h = rw h refl

-- The first occurrence of such a text.
index_first :
    (p : Bytes) (c : ℕ) (q t : Bytes)
    → Lacks c q
    → Lacks c p
    → index (q ++ ((p ++ c ∷ []) ++ t)) (p ++ c ∷ []) ≡ some (length q)
unfolding index
index_first p c [] t h k =
    index_of_prefix ((p ++ c ∷ []) ++ t) (p ++ c ∷ []) (has_prefix-append (p ++ c ∷ []) t)
index_first p c (x ∷ q) t h k =
    let shape : ((x ∷ q) ++ p) ++ (c ∷ t) ≡ x ∷ (q ++ ((p ++ c ∷ []) ++ t)) = simp append_assoc in
    let late : has_prefix (x ∷ (q ++ ((p ++ c ∷ []) ++ t))) (p ++ c ∷ []) ≡ false =
      ap (λ (s : Bytes). has_prefix s (p ++ c ∷ [])) (sym shape)
      ∙ has_prefix_late p c ((x ∷ q) ++ p) (c ∷ t) (Lacks-append c (x ∷ q) p h k)
          (omega (arith, length-append {0} q p)) in
    rw (late, index_first p c q t h.1 k) refl

without_last-append : (s : Bytes) (y : ℕ) → without_last (s ++ y ∷ []) ≡ ret s
unfolding without_last
without_last-append [] y = refl
without_last-append (x ∷ s) y =
    let longer : length (s ++ y ∷ []) ≡ suc (length s) =
      omega (arith, length-append {0} s (y ∷ [])) in
    rw longer (ap (λ (l : Bytes). ret (x ∷ l)) (take-append s (y ∷ [])))

ends_in_of_Lacks : (c : ℕ) (s : Bytes) → Lacks c s → ends_in s c ≡ false
unfolding ends_in
ends_in_of_Lacks c [] h = refl
ends_in_of_Lacks c (x ∷ []) h = ground arith
ends_in_of_Lacks c (x ∷ y ∷ s) h = ends_in_of_Lacks c (y ∷ s) h.1

contains_of_none : (s sep : Bytes) → index s sep ≡ none → contains s sep ≡ false
unfolding contains
contains_of_none s sep h = ap (λ (o : Option ℕ). elim o [ some _ ↦ true | none ↦ false ]) h

-- The client finds the device's id where DeviceAddress of the server has put it.
find_device_id_lem :
    (origin id : Bytes)
    → Lacks b'=' origin
    → Lacks b'=' id
    → find_device_id_in_url (origin ++ (device_mark ++ (id ++ b'/' ∷ []))) ≡ ret id
unfolding find_device_id_in_url device_behind contains
find_device_id_lem origin id h k =
    let post : Bytes = id ++ b'/' ∷ [] in
    let once : contains post device_mark ≡ false = contains_of_none post device_mark (
      index_of_Lacks (codes "/restconf") b'=' post
        (Lacks-append b'=' id (b'/' ∷ []) k (omega arith))) in
    let behind : drop (length origin + 10) (origin ++ (device_mark ++ post)) ≡ post =
      drop_at (origin ++ device_mark) post (origin ++ (device_mark ++ post)) (length origin + 10)
        (simp append_assoc) (omega (arith, length-append {0} origin device_mark)) in
    rw (index_first (codes "/restconf") b'=' origin post h (omega arith), behind, once)
      (without_last-append id b'/')

-- The endpoint of the requests for a path, as a segment.
abbrev pub endpoint_name : ComplianceOptions → NodePath → Bytes
endpoint_name compliance p =
    if p.is_action && (not compliance.allow_rpc_under_data && p.is_root_level)
    then codes "operations"
    else codes "data"

-- The path that NewAddress and the requests of the client make behind the origin.
abbrev pub server_path : Bytes → ComplianceOptions → NodePath → Bytes
server_path id compliance p =
    b'/'
    ∷ ((codes "restconf" ++ b'=' ∷ id)
        ++ b'/'
          ∷ (endpoint_name compliance p ++ b'/' ∷ (p.module_ident ++ b':' ∷ p.string_no_module)))

is_empty-append : (a : Bytes) (x : ℕ) (b : Bytes) → is_empty (a ++ x ∷ b) ≡ false
unfolding is_empty
is_empty-append [] x b = refl
is_empty-append (y ∷ a) x b = refl

no_last_slash : (a id : Bytes) → Lacks b'/' id → id ≢ [] → ends_in (a ++ id) b'/' ≡ false
no_last_slash a [] h ne = absurd (ne refl)
no_last_slash a (y ∷ b) h ne = ends_in-append a y b b'/' ∙ ends_in_of_Lacks b'/' (y ∷ b) h

-- For the address that DeviceAddress gives a device on a server, a client knows the device's id, and
-- sends the requests for a path to the URL whose path names that device, the operations endpoint for
-- the rpcs of strict mode and the data endpoint for all else, the module and the path in it.
pub new_address_device :
    (parse_host : Bytes → Result Bytes) (origin id host : Bytes)
    → Lacks b'=' origin
    → Lacks b'=' id
    → Lacks b'/' id
    → id ≢ []
    → parse_host ((origin ++ device_address id) ++ codes "/") ≡ ok host
    → (a : Address) × (new_address parse_host (origin ++ device_address id) ≡ ret (ok a))
      × ((a.device_id ≡ id)
          × ((compliance : ComplianceOptions) (p : NodePath)
              → full_url a compliance p [] ≡ origin ++ server_path id compliance p))
unfolding new_address with_slash full_url device_address parsed with_device is_empty
new_address_device parse_host origin id host h k l ne parses =
    let url : Bytes = origin ++ device_address id in
    let whole : url ++ codes "/" ≡ origin ++ (device_mark ++ (id ++ b'/' ∷ [])) =
      simp append_assoc in
    let some_url : is_empty url ≡ false = is_empty-append origin b'/' (codes "restconf=" ++ id) in
    let shape : (origin ++ device_mark) ++ id ≡ url = simp append_assoc in
    let open_end : ends_in url b'/' ≡ false =
      ap (λ (u : Bytes). ends_in u b'/') (sym shape)
      ∙ no_last_slash (origin ++ device_mark) id l ne in
    let device : find_device_id_in_url (url ++ codes "/") ≡ ret id =
      ap find_device_id_in_url whole ∙ find_device_id_lem origin id h k in
    (
      address_of (url ++ codes "/") host id,
      rw (some_url, open_end, parses, device) refl,
      (
        refl,
        λ compliance p.
            elim (Bool-cases
              (p.is_action && (not compliance.allow_rpc_under_data && p.is_root_level))) [
                | inl e ↦ rw e (simp append_assoc)
                | inr e ↦ rw e (simp append_assoc)
              ],
      ),
    )
