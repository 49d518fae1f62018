-- ===== src/Address/Host.antt =====
-- ipAddrSplitHostPort: the host and the port of a peer's address.
use restconf.Prelude.{
  ℕ, ◌+◌, ◌≡◌, refl, none, [], ◌∷◌, ◌++◌, arith, length, drop, length-append, take-append,
  drop-append_suc, drop_at, guarded_drop, take-append_suc, append_assoc,
}
use native.Mathlib.Numerals.{add-one}
use restconf.Text.{Bytes, codes, index}
use restconf.Text.Laws.{Lacks, Lacks-append, index_byte_of_Lacks, index_byte-append}
use restconf.Address.{ip_addr_split_host_port}

index-none_of_Lacks : (s sep : Bytes) (c : ℕ) → Lacks c s → index s (c ∷ sep) ≡ none
unfolding index
index-none_of_Lacks [] sep c h = refl
index-none_of_Lacks (x ∷ s) sep c h = ground (arith, index-none_of_Lacks s sep c h.1)

-- One colon between two texts without colons makes no pair of colons.
index-none_single :
    (a b : Bytes) → Lacks b':' a → Lacks b':' b → index (a ++ b':' ∷ b) (codes "::") ≡ none
unfolding index
index-none_single [] [] h k = refl
index-none_single [] (y ∷ b) h k = ground (arith, index-none_of_Lacks b (b':' ∷ []) b':' k.1)
index-none_single (x ∷ a) b h k = ground (arith, index-none_single a b h.1 k)

-- A host without colons and closing brackets, a colon and a port without them are split at the
-- colon.
ip_addr_split_host_port_v4 :
    (host port : Bytes)
    → Lacks b':' host
    → Lacks b']' host
    → Lacks b':' port
    → Lacks b']' port
    → ip_addr_split_host_port (host ++ b':' ∷ port) ≡ (host, port)
unfolding ip_addr_split_host_port
ip_addr_split_host_port_v4 host port h k p q = rw (
  index_byte_of_Lacks (host ++ b':' ∷ port) b']'
      (Lacks-append b']' host (b':' ∷ port) k (omega arith, q)),
  index-none_single host port h p,
  index_byte-append host port b':' h,
  take-append host (b':' ∷ port),
  drop-append_suc host b':' port,
)

-- A host in brackets, a colon and any port are split at that colon, and the brackets stay on the
-- host, if it holds no other closing bracket.
ip_addr_split_host_port_v6 :
    (inner port : Bytes)
    → Lacks b']' inner
    → ip_addr_split_host_port ((b'[' ∷ inner) ++ b']' ∷ b':' ∷ port)
      ≡ ((b'[' ∷ inner) ++ b']' ∷ [], port)
unfolding ip_addr_split_host_port
ip_addr_split_host_port_v6 inner port h =
    let host : Bytes = b'[' ∷ inner in
    let behind : drop (length host + 2) (host ++ b']' ∷ b':' ∷ port) ≡ port =
      drop_at (host ++ b']' ∷ b':' ∷ []) port (host ++ b']' ∷ b':' ∷ port) (length host + 2)
        (simp append_assoc) (omega (arith, length-append {0} host (b']' ∷ b':' ∷ []))) in
    rw (index_byte-append host (b':' ∷ port) b']' (omega arith, h)) (
      rw (guarded_drop (length host + 2) (host ++ b']' ∷ b':' ∷ port), behind)
        (rw (add-one, take-append_suc host b']' (b':' ∷ port))))
