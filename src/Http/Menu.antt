-- ===== src/Http/Menu.antt =====
-- crates/bootycall-http/src/server.rs: `/ipxemenu`.
use booty_call.Prelude.{ℕ, Option, none, some, List}
use booty_call.Prelude.Bytes.{codes}
use booty_call.Core.Config.{HostConfig, Config}
use booty_call.Http.{Response, ok, script_response, HeaderMap, host_header}

-- The variables of the menu template.
pub record MenuContext : Type 0 where
  pub server_ip_port : List ℕ
  pub hosts : List HostConfig

abbrev pub menu_error : List ℕ
menu_error = codes "#!ipxe\necho Menu error\nexit\n"

abbrev pub or_menu_error : Option (List ℕ) → List ℕ
or_menu_error none = menu_error
or_menu_error (some rendered) = rendered

-- `menu_template` is what `get_template("ipxemenu")` returns.
unfoldable pub menu_handler : Option (MenuContext → Option (List ℕ)) → Config → HeaderMap → Response
menu_handler none config headers = script_response ok menu_error
menu_handler (some menu_template) config headers = script_response ok (
    or_menu_error
      (menu_template (record { server_ip_port = host_header headers; hosts = config.hosts })))
