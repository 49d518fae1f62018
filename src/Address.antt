-- ===== src/Address.antt =====
-- util.go: taking addresses and paths apart, and joining them.
pub mod Split
pub mod Full
pub mod Host
pub mod Join
use restconf.Prelude.{
  ℕ, zero, suc, ◌+◌, Bool, true, false, not, ◌&&◌, ◌||◌, Option, none, some, List, [], ◌∷◌, ◌++◌,
  ltb, ◌==◌, if◌then◌else◌, length, take, drop,
}
use restconf.Text.{Bytes, codes, is_empty, index_byte, last_index_byte, has_prefix, index}
use restconf.Errors.{bad_address, Result, ok, err, ◌>>=◌}

pub record Parts : Type 0 where
  pub address : Bytes
  pub module_name : Bytes
  pub path : Bytes

-- LastIndex + 1, which is 0 where there is none
after_last : Option ℕ → ℕ
after_last none = 0
after_last (some i) = suc i

-- from `moduleBegin :=` to the end
cut_at : Bytes → ℕ → Parts
unfolding after_last
cut_at fullurl colon =
    let module_begin = after_last (last_index_byte (take colon fullurl) b'/') in
    record {
      address = take module_begin fullurl;
      module_name = drop module_begin (take colon fullurl);
      path = drop (suc colon) fullurl;
    }

-- from `colon :=`; a colon directly behind the slash is refused too
after_host : Bytes → ℕ → Option ℕ → Result Parts
unfolding cut_at
after_host fullurl eo_slash none = err bad_address
after_host fullurl eo_slash (some zero) = err bad_address
after_host fullurl eo_slash (some (suc i)) = ok (cut_at fullurl (eo_slash + suc i))

-- from `eoSlash :=`
after_scheme : Bytes → ℕ → Option ℕ → Result Parts
unfolding after_host
after_scheme fullurl eo_slash_slash none = err bad_address
after_scheme fullurl eo_slash_slash (some i) =
    let eo_slash = suc (eo_slash_slash + i) in
    after_host fullurl eo_slash (index_byte (drop eo_slash fullurl) b':')

start_address : Bytes → Option ℕ → Result Parts
unfolding after_scheme
start_address fullurl none = err bad_address
start_address fullurl (some i) =
    let eo_slash_slash = i + 2 in
    after_scheme fullurl eo_slash_slash (index_byte (drop eo_slash_slash fullurl) b'/')

unfoldable pub split_address : Bytes → Result Parts
unfolding start_address
split_address fullurl = start_address fullurl (index fullurl (codes "//"))

-- `module[slash+1:]`, or the module as it is
behind_slash : Bytes → Option ℕ → Bytes
behind_slash m none = m
behind_slash m (some slash) = drop (suc slash) m

cut_uri : Bytes → Option ℕ → Result (Bytes × Bytes)
unfolding behind_slash
cut_uri uri none = err bad_address
cut_uri uri (some colon) =
    let m = take colon uri in ok (behind_slash m (last_index_byte m b'/'), drop (suc colon) uri)

unfoldable pub split_uri : Bytes → Result (Bytes × Bytes)
unfolding cut_uri
split_uri uri = cut_uri uri (index_byte uri b':')

print_path : Bytes → Result (Bytes × Bytes) → Bytes
print_path full_path (err _) = full_path
print_path full_path (ok (m, path)) = m ++ b':' ∷ path

unfoldable pub decode_error_path : Bytes → Bytes
unfolding print_path
decode_error_path full_path = print_path full_path (split_uri full_path)

-- The last byte of `s` is `c`, and the first byte is: `a[len(a)-1] == c`, `b[0] == c`.
unfoldable pub ends_in : Bytes → ℕ → Bool
ends_in [] c = false
ends_in (x ∷ []) c = x == c
ends_in (x ∷ y ∷ s) c = ends_in (y ∷ s) c

unfoldable pub starts_with : Bytes → ℕ → Bool
starts_with [] c = false
starts_with (x ∷ s) c = x == c

-- the two tests on `slashA` and `slashB`
join : Bool → Bool → Bytes → Bytes → Bytes
join true false a b = a ++ b
join false true a b = a ++ b
join true true a b = a ++ drop 1 b
join false false a b = a ++ b'/' ∷ b

unfoldable pub append_url_segment : Bytes → Bytes → Bytes
unfolding ends_in starts_with join
append_url_segment a b =
    if is_empty a || is_empty b then a ++ b else join (ends_in a b'/') (starts_with b b'/') a b

-- where `isIpv6`
split_ipv6 : Bytes → Option ℕ → Bytes × Bytes
split_ipv6 addr none = (addr, [])
split_ipv6 addr (some zero) = (addr, [])
split_ipv6 addr (some (suc i)) =
    let bracket = suc i in
    (
      take (bracket + 1) addr,
      if ltb (bracket + 2) (length addr) then drop (bracket + 2) addr else [],
    )

split_ipv4 : Bytes → Option ℕ → Bytes × Bytes
split_ipv4 addr none = (addr, [])
split_ipv4 addr (some colon) = (take colon addr, drop (suc colon) addr)

is_found : Option ℕ → Bool
is_found none = false
is_found (some _) = true

unfoldable pub ip_addr_split_host_port : Bytes → Bytes × Bytes
unfolding split_ipv6 split_ipv4 is_found
ip_addr_split_host_port addr =
    let bracket = index_byte addr b']' in
    if is_found bracket || is_found (index addr (codes "::"))
    then split_ipv6 addr bracket
    else split_ipv4 addr (index_byte addr b':')
