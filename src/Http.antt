-- ===== src/Http.antt =====
-- crates/bootycall-http/src/server.rs: answers, the Host header, and the files and assets that are served.
-- axum parses a request and sends the answer; a handler is a function of what it is given.
pub mod Poll
pub mod Menu
pub mod Wallpaper
pub mod Api
pub mod Token
pub mod Routes
pub mod Served
use booty_call.Prelude.{
  ℕ, Bool, true, false, not, ◌&&◌, ◌||◌, Option, none, some, List, [], ◌∷◌, ◌++◌, ◌==◌,
  if◌then◌else◌, ◌⊎◌, inl, inr,
}
use booty_call.Prelude.Bytes.{codes, eq_bytes, to_ascii_lowercase}
use booty_call.Core.Config.{Config}
use booty_call.Core.Path.{
  Components, Component, root_dir, parent_dir, cur_dir, normal, components, FileSystem, safe_join,
}

pub data StatusCode : Type 0 where
  ok see_other bad_request unauthorized forbidden not_found internal_server_error
        service_unavailable :
      StatusCode

-- A body is text, or the stream of a file that was opened.
pub data Body : Type 0 where
  text : List ℕ → Body
  stream : Components → Body

pub record Response : Type 0 where
  pub status : StatusCode
  pub content_type : Option (List ℕ)
  pub location : Option (List ℕ)
  pub body : Body

-- `status.into_response()` is an answer without a body.
abbrev pub bare : StatusCode → Response
bare code = record { status = code; content_type = none; location = none; body = text [] }

-- `(status, "message").into_response()`; axum calls a string UTF-8 text.
abbrev pub plain : StatusCode → List ℕ → Response
plain code message = record {
  status = code;
  content_type = some (codes "text/plain; charset=utf-8");
  location = none;
  body = text message;
}

-- `(status, [(CONTENT_TYPE, "text/plain")], script)`
abbrev pub script_response : StatusCode → List ℕ → Response
script_response code script = record {
  status = code;
  content_type = some (codes "text/plain");
  location = none;
  body = text script;
}

-- `Path::file_name`: the last component, if it is a normal one.
abbrev pub file_name : List Component → Option (List ℕ)
file_name [] = none
file_name (root_dir ∷ []) = none
file_name (parent_dir ∷ []) = none
file_name (cur_dir ∷ []) = none
file_name (normal s ∷ []) = some s
file_name (c ∷ d ∷ cs) = file_name (d ∷ cs)

-- What stands before and after the last dot.
abbrev pub split_last_dot : List ℕ → Option (List ℕ × List ℕ)
split_last_dot [] = none
split_last_dot (b ∷ bs) = elim (split_last_dot bs) [
  | some (before, after) ↦ some (b ∷ before, after)
  | none ↦ if b == b'.' then some ([], bs) else none
]

-- A file name that only starts with a dot has no extension.
abbrev pub after_dot : Option (List ℕ × List ℕ) → List ℕ
after_dot none = []
after_dot (some ([], after)) = []
after_dot (some (b ∷ before, after)) = after

abbrev pub name_extension : Option (List ℕ) → List ℕ
name_extension none = []
name_extension (some name) = after_dot (split_last_dot name)

-- `Path::new(path).extension()`, or the empty string.
unfoldable pub extension : List ℕ → List ℕ
extension path = name_extension (file_name (components path))

-- No letter outside ASCII has one of the letters of these extensions as its lower case, so
-- `to_lowercase` may be read as `to_ascii_lowercase` here.
unfoldable pub content_type_for : List ℕ → List ℕ
content_type_for path =
    let ext = to_ascii_lowercase (extension path) in
    if eq_bytes ext (codes "ipxe") || eq_bytes ext (codes "txt")
    then codes "text/plain"
    else if eq_bytes ext (codes "png")
    then codes "image/png"
    else if eq_bytes ext (codes "jpg") || eq_bytes ext (codes "jpeg")
    then codes "image/jpeg"
    else if eq_bytes ext (codes "gif")
    then codes "image/gif"
    else if eq_bytes ext (codes "json")
    then codes "application/json"
    else if eq_bytes ext (codes "css")
    then codes "text/css"
    else if eq_bytes ext (codes "js")
    then codes "application/javascript"
    else if eq_bytes ext (codes "html")
    then codes "text/html"
    else codes "application/octet-stream"

-- The file system, which of its files are regular and can be opened, the path that a configured directory
-- stands for, and the names that a directory lists. A listing is `none` when the directory cannot be
-- read, and an entry is `none` when reading it fails.
pub record Disk : Type 0 where
  pub system : FileSystem
  pub is_file : Components → Bool
  pub opens : Components → Bool
  pub path_of : List ℕ → Components
  pub read_dir : Components → Option (List (Option (List ℕ)))

-- The headers of a request: the value of a header by its name, where it is there and is text.
abbrev pub HeaderMap : Type 0
HeaderMap = List ℕ → Option (List ℕ)

abbrev pub unwrap_or : List ℕ → Option (List ℕ) → List ℕ
unwrap_or fallback none = fallback
unwrap_or fallback (some s) = s

unfoldable pub host_header : HeaderMap → List ℕ
host_header headers = unwrap_or (codes "localhost:8080") (headers (codes "host"))

-- `/start`
unfoldable pub start_handler : HeaderMap → Response
start_handler headers = script_response ok (
    codes "#!ipxe\necho BootyCall starting...\nchain --autofree --replace http://"
    ++ (host_header headers ++ codes "/poll/${mac:hexhyp}\n"))

unfoldable pub root_redirect : Response
root_redirect = record {
  status = see_other;
  content_type = none;
  location = some (codes "/ui/index.html");
  body = text [];
}

-- The assets are embedded in the binary: `asset` is `Asset::get`.
unfoldable pub serve_asset : (List ℕ → Option (List ℕ)) → List ℕ → Response
serve_asset asset path = elim (asset path) [
  | some content ↦ record {
    status = ok;
    content_type = some (content_type_for path);
    location = none;
    body = text content;
  }
  | none ↦ bare not_found
]

-- `/ui/{*path}`
abbrev pub ui_handler : (List ℕ → Option (List ℕ)) → List ℕ → Response
ui_handler asset path = serve_asset asset path

module _ (disk : Disk) where
  abbrev pub serve_resolved : List ℕ → Option Components → Response
  serve_resolved relative_path none = bare forbidden
  serve_resolved relative_path (some full_path) =
      if not (disk.system.exists full_path) || not (disk.is_file full_path)
      then bare not_found
      else if disk.opens full_path
      then record {
        status = ok;
        content_type = some (content_type_for relative_path);
        location = none;
        body = stream full_path;
      }
      else bare internal_server_error

  unfoldable pub serve_file_from_dir : Components → List ℕ → Response
  serve_file_from_dir dir relative_path =
      serve_resolved relative_path (safe_join disk.system dir relative_path)

  -- `/static/{*path}`
  abbrev pub serve_static_file : Config → List ℕ → Response
  serve_static_file config path = serve_file_from_dir (disk.path_of config.server.static_dir) path

  -- `/cache/{*path}`
  abbrev pub serve_cache_file : Config → List ℕ → Response
  serve_cache_file config path = serve_file_from_dir (disk.path_of config.server.cache_dir) path
