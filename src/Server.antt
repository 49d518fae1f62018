-- ===== src/Server.antt =====
-- server.go: the routes of the web server, and what it keeps. What the handlers of the devices'
-- browsers do is Handler. A nil interface or function is `none`, and calling it is a panic.
pub mod Pages
pub mod Route
pub mod Setup
use restconf.Prelude.{ℕ, Bool, true, false, Option, none, some, List, [], ◌∷◌, ◌++◌, if◌then◌else◌}
use restconf.Text.{Bytes, codes, is_empty}
use restconf.Errors.{Error, not_found, Result, ok, err, Run, panicked, ret}
use restconf.Http.{Request, Response}
use restconf.Wire.{Module}
use restconf.Handler.{Context}

-- source.Opener: a name and an extension give an error, nothing, or the content.
abbrev pub Opener : Type 0
Opener = Bytes → Bytes → Result (Option Bytes)

pub record WebApp : Type 0 where
  pub endpoint : Bytes
  pub home_dir : Bytes
  pub home_page : Bytes

-- os.Open of a file in a directory, and what is known of the file then
pub data Opened : Type 0 where
  missing : Opened
  failed : Error → Opened
  directory : (read_error : Error) → Opened
  file : Bytes → Opened

-- device.Device: `browser` answers as the method, with a browser and an error
pub record Device (Browser : Type 0) : Type 0 where
  pub schema_source : Option Opener
  pub ui_source : Option Opener
  pub browser : Bytes → Option Browser × Option Error

pub record Server (Browser : Type 0) : Type 0 where
  pub web_apps : List WebApp
  pub ver : Bytes
  pub main : Option (Device Browser)
  pub devices : Option (Bytes → Result (Option (Device Browser)))
  pub unhandled_request_handler : Option (Request → Response → Response)
  pub filters : List (Context → Response → Request → Result Context × Response)
  pub only_strict_compliance : Bool

unfoldable pub module_address : Module → Bytes
module_address m = codes "schema/" ++ (m.ident ++ codes ".yang")

unfoldable pub device_address : Bytes → Bytes
device_address id = codes "/restconf=" ++ id

module _ {Browser : Type 0} where
  unfoldable pub serve_devices :
      (Bytes → Result (Option (Device Browser))) → Server Browser → Server Browser
  serve_devices m srv = record srv { devices = some m }

  unfoldable pub serve_device : Device Browser → Server Browser → Server Browser
  serve_device d srv = record srv { main = some d }

  unfoldable pub register_web_app :
      (home_dir home_page endpoint : Bytes) → Server Browser → Server Browser
  register_web_app home_dir home_page endpoint srv = record srv {
    web_apps =
        srv.web_apps
        ++ record { endpoint = endpoint; home_dir = home_dir; home_page = home_page } ∷ [];
  }

  or_not_found : Bytes → Result (Option (Device Browser)) → Result (Option (Device Browser))
  or_not_found device_id (err e) = err e
  or_not_found device_id (ok none) = err (not_found [] (codes ". device " ++ device_id))
  or_not_found device_id (ok (some d)) = ok (some d)

  look_up :
      Option (Bytes → Result (Option (Device Browser)))
      → Bytes
      → Run (Result (Option (Device Browser)))
  unfolding or_not_found
  look_up none device_id = panicked
  look_up (some devices) device_id = ret (or_not_found device_id (devices device_id))

  unfoldable pub find_device : Server Browser → Bytes → Run (Result (Option (Device Browser)))
  unfolding look_up
  find_device srv device_id =
      if is_empty device_id then ret (ok srv.main) else look_up srv.devices device_id
