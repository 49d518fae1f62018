-- ===== src/Client/Remote/Cache.antt =====
-- The modules of a remote device (client/client.go): those that are loaded from the YANG library of
-- its server, and those that are added when they are asked for.
use mathlib.Core.List.{Perm, map}
use restconf.Prelude.{
  Bool, ℕ, Option, none, some, List, ◌≡◌, ◌≢◌, refl, sym, ◌∙◌, length, get_elem?, ◌<◌,
}
use restconf.Text.{Bytes, codes}
use restconf.Text.Laws.{beq_self, beq_of_ne}
use restconf.Errors.{Error, Fc, Result, ok, err, ret}
use restconf.Maps.{find}
use restconf.Maps.Laws.{find-store}
use restconf.Compliance.{ComplianceOptions}
use restconf.Server
use restconf.Device.{Meta, Yang, Local, modules}
use restconf.Device.Modules.{Built, modules-ident, modules-IsMap}
use restconf.Device.YangLib.{LibNode, Entry, less, keys, module_list_next}
use restconf.Device.YangLib.Rows.{rows}
use restconf.Device.YangLib.Loader.{ModuleHnd, NewEntry}
use restconf.Device.YangLib.Loader.Loaded.{each, copied, load_modules_copies}
use restconf.Client.{Address, new_address}
use restconf.Client.Remote.{
  Opener, Sources, RemoteDevice, open_stream, module', browser, cached, new_device, new_client_node,
  resolve_module_hnd,
}

-- The same, for what the map and the parser have answered.
cached_again :
    (sources later : Sources) (name k : Bytes) (c : RemoteDevice) (m : Meta) (o : Option Meta)
    (r : Result Meta)
    → find c.modules name ≡ o
    → (cached sources name c o r).0 ≡ ok m
    → k ≢ name
    → (module' later name (cached sources name c o r).1 ≡ (ok m, (cached sources name c o r).1))
      × (find (cached sources name c o r).1.modules k ≡ find c.modules k)
unfolding module' cached
cached_again sources later name k c m (some n) r e g ne = (rw e (cc g), refl)
cached_again sources later name k c m none (err x) e g ne = absurd (cc g)
cached_again sources later name k c m none (ok n) e g ne = (
  rw (find-store c.modules name name n, beq_self name) (cc g),
  rw (find-store c.modules name k n, beq_of_ne name k (λ q. ne (sym q))) refl,
)

-- A module that was given out stays the same for this name, whatever its sources say later, and the
-- modules of other names are not touched.
module_again :
    (sources later : Sources) (name k : Bytes) (c : RemoteDevice) (m : Meta)
    → (module' sources name c).0 ≡ ok m
    → k ≢ name
    → (module' later name (module' sources name c).1 ≡ (ok m, (module' sources name c).1))
      × (find (module' sources name c).1.modules k ≡ find c.modules k)
unfolding module'
module_again sources later name k c m g ne =
    cached_again sources later name k c m (find c.modules name)
      (sources.load_module c.schema_path name) refl g ne

browser_again :
    {Node : Type 0} (sources : Sources) (name : Bytes) (c : RemoteDevice) (m : Meta)
    → find c.modules name ≡ some m
    → browser sources name c
      ≡ (ok (m, new_client_node sources {Node = Node} c.address.device_id), c)
unfolding browser
browser_again sources name c m e = rw e refl

module _ {Node Source Browser Value Object St : Type 0}
    (yang : Yang Node Source Browser Value Object St) (d : Local Browser) (built : Built yang d)
    (names : (opener : Option Server.Opener) (name : Bytes) (m : Meta)
      → yang.load_module opener name ≡ ok m
      → m.ident ≡ name)
    (keeps : (m : Meta) (n : Node) → yang.meta (yang.new_browser m n) ≡ m)
    (keeps_source : (m : Meta) (src : Source) → yang.meta (yang.new_browser_source m src) ≡ m)
    {Sel ClientsNode : Type 0} (sources : Sources) (fc : Fc) (parse_host : Bytes → Result Bytes)
    (insert_into : Sel
      → (NewEntry → List (Bytes × Meta) → Option Error × List (Bytes × Meta))
      → List (Bytes × Meta)
      → Option Error × List (Bytes × Meta))
    (find_modules : Address → Meta → Result Sel) (ypath : Opener) (compliance : ComplianceOptions)
    (next_key : (Bytes → Bytes → Bool) → List Bytes → ℕ → Option Bytes)
    (fill : LibNode → ModuleHnd → ModuleHnd)
    (kept_name : (n : LibNode) (h : ModuleHnd) → (fill n h).name ≡ h.name) where
  -- NewDevice for a server whose device was filled in any way: if the client's own path has the YANG
  -- library's module, the selection of the server's list of modules is copied entry by entry, and every
  -- module that the server has can be resolved, then the client has the modules of the server's device
  -- under the same names and no others, and Browser opens every module of the server without loading it
  -- again.
  pub new_device-modules :
      (url : Bytes) (a : Address) (lib : Meta) (sel : Sel) (sorted : List (Bytes × Meta)) (fuel : ℕ)
      (es : List Entry)
      → new_address parse_host url ≡ ret (ok a)
      → sources.load_module ypath (codes "ietf-yang-library") ≡ ok lib
      → find_modules a lib ≡ ok sel
      → Perm sorted (modules yang d)
      → ((row : ℕ) → next_key less (keys (modules yang d)) row ≡ get_elem? (keys sorted) row)
      → length sorted < fuel
      → rows
          (λ row. module_list_next next_key (modules yang d) (record { key = none; row = row }))
          fuel
          0
        ≡ some es
      → ((f : NewEntry → List (Bytes × Meta) → Option Error × List (Bytes × Meta))
            (acc : List (Bytes × Meta))
          → insert_into sel f acc ≡ each f (map (copied fill) es) acc)
      → ((h : ModuleHnd) (m : Meta)
          → find (modules yang d) h.name ≡ some m
          → resolve_module_hnd sources ypath (record { ypath = some ypath; url = a.schema }) h
            ≡ ok m)
      → (k : Bytes) (m : Meta) → find (modules yang d) k ≡ some m
      → (c : RemoteDevice) × (new_device sources fc parse_host insert_into find_modules ypath
            compliance url
          ≡ ret (ok c))
        × (c.address ≡ a)
        × ((j : Bytes) → find c.modules j ≡ find (modules yang d) j)
        × (browser sources k c
            ≡ (ok (m, new_client_node sources {Node = ClientsNode} a.device_id), c))
  unfolding new_device
  new_device-modules url a lib sel sorted fuel es at own found same indexed enough listed copies
        resolves k m e =
      let named = modules-ident yang names keeps keeps_source built in
      let (loaded, loads, agrees) =
        load_modules_copies
          (resolve_module_hnd sources ypath (record { ypath = some ypath; url = a.schema })) fill
          (modules yang d) kept_name resolves insert_into sel next_key sorted fuel es
          (modules-IsMap yang d) named same indexed enough listed copies in
      let c : RemoteDevice = record {
        address = a;
        yang_path = ypath;
        schema_path =
            sources.any ypath (open_stream sources (record { ypath = some ypath; url = a.schema }));
        modules = loaded;
        compliance = compliance;
      } in
      (c, rw (at, own, found, loads) refl, refl, agrees, browser_again sources k c m (agrees k ∙ e))
