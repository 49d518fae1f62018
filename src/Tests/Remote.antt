-- ===== src/Tests/Remote.antt =====
-- A client for a server with the modules "bus" and "car".

use mathlib.Core.List.Perm
use restconf.Prelude.{ℕ, Option, none, some, ◌≡◌, refl, arith}
use restconf.Text.{Bytes, codes, beq}
use restconf.Errors.{Result, ok, ret}
use restconf.Maps.{find, store}
use restconf.Compliance.{strict}
use restconf.Device.{Meta, add, modules, new_with_ui}
use restconf.Device.YangLib.{module_handle}
use restconf.Device.YangLib.Rows.{entries, module_list_rows}
use restconf.Client.{Address, new_address}
use restconf.Client.Remote.{
  Opener, Sources, RemoteDevice, browser, new_device, new_client_node, resolve_module_hnd,
}
use restconf.Client.Remote.Cache.{new_device-modules}
use restconf.Tests.Requests.{errors}
use restconf.Tests.Routes.{host_h, location}
use restconf.Tests.Devices.{
  meta_of, parser, device, device-Built, loads_by_name, mods, in_order, fill, copying,
}

abbrev or_made : Bytes → Option Meta → Result Meta
or_made name none = ok (meta_of name)
or_made name (some m) = ok m

abbrev no_files : Opener
no_files name ext = (none, none)

abbrev sources : Sources
sources = record {
  load_module = λ opener name. or_made name (find mods name);
  any = λ a b. a;
  http_get = λ url. (none, none);
}

new_device-modules_example :
    (c : RemoteDevice) × (new_device sources errors host_h copying
        (λ a m. ok tt)
        no_files
        strict
        (codes "http://h/restconf=dev/")
      ≡ ret (ok c))
    × (c.address ≡ location)
    × ((j : Bytes) → find c.modules j ≡ find (modules parser device) j)
    × (browser sources (codes "car") c
        ≡ (ok (meta_of (codes "car"), new_client_node sources {Node = ℕ} (codes "dev")), c))
unfolding find beq new_address modules add store new_with_ui resolve_module_hnd
    restconf.Text.is_empty restconf.Client.find_device_id_in_url restconf.Text.index
    restconf.Client.with_slash restconf.Address.ends_in restconf.Text.contains
new_device-modules_example =
    new_device-modules parser device device-Built loads_by_name (λ m n. refl) (λ m src. refl)
      {ClientsNode = ℕ} sources errors host_h copying (λ a m. ok tt) no_files strict in_order fill
      (λ n h. refl) (codes "http://h/restconf=dev/") location (meta_of (codes "ietf-yang-library"))
      tt mods 3 (entries module_handle mods) refl refl refl (Perm.refl mods) (λ row. refl)
      (omega arith)
      (module_list_rows in_order mods mods 3 (refl, (refl, tt)) (Perm.refl mods) (λ row. refl)
        (omega arith)).0
      (λ f acc. refl) (λ h m e. rw e refl) (codes "car") (meta_of (codes "car")) refl
