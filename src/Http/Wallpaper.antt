-- ===== src/Http/Wallpaper.antt =====
-- crates/bootycall-http/src/server.rs: `/dynamic/wallpaper.ipxe`.
pub mod Chosen
use booty_call.Prelude.{
  ℕ, zero, suc, ◌-◌, Bool, true, false, ◌||◌, Option, none, some, List, [], ◌∷◌, ◌++◌,
  if◌then◌else◌, length, drop,
}
use booty_call.Prelude.Bytes.{codes, eq_bytes, to_ascii_lowercase}
use booty_call.Text.Utf8.{from_utf8_lossy}
use booty_call.Text.Decimal.{decimal}
use booty_call.Core.Config.{Config}
use booty_call.Core.Path.{Components, safe_join}
use booty_call.Http.{Response, ok, script_response, HeaderMap, host_header, Disk}

abbrev pub max_wallpaper_candidates : ℕ
max_wallpaper_candidates = 1024

-- `str::ends_with`
abbrev pub ends_with : List ℕ → List ℕ → Bool
ends_with s suffix = eq_bytes (drop (length s - length suffix) s) suffix

-- No letter outside ASCII has one of the letters of these endings as its lower case, so
-- `to_lowercase` may be read as `to_ascii_lowercase` here.
unfoldable pub is_image : List ℕ → Bool
is_image file_name =
    let lower = to_ascii_lowercase file_name in
    ends_with lower (codes ".png")
    || (ends_with lower (codes ".jpg") || ends_with lower (codes ".jpeg"))

-- The loop over the entries while there is `room` for more candidates.
unfoldable pub collect_loop : ℕ → List (Option (List ℕ)) → List (List ℕ)
collect_loop zero entries = []
collect_loop (suc room) [] = []
collect_loop (suc room) (none ∷ entries) = []
collect_loop (suc room) (some raw ∷ entries) =
    let name = from_utf8_lossy raw in
    let more = collect_loop room entries in
    let others = collect_loop (suc room) entries in if is_image name then name ∷ more else others

abbrev pub listed : Option (List (Option (List ℕ))) → List (Option (List ℕ))
listed none = []
listed (some entries) = entries

unfoldable pub collect_wallpaper_candidates : Disk → Components → List (List ℕ)
collect_wallpaper_candidates disk dir =
    collect_loop max_wallpaper_candidates (listed (disk.read_dir dir))

pub record WallpaperQuery : Type 0 where
  pub width : Option ℕ
  pub height : Option ℕ
  pub hd_video : Option (List ℕ)

-- `query.hd_video.as_deref() == Some("true")`
abbrev pub is_hd : Option (List ℕ) → Bool
is_hd none = false
is_hd (some s) = eq_bytes s (codes "true")

unfoldable pub target_width : WallpaperQuery → Option ℕ
target_width q = if is_hd q.hd_video then some 1920 else q.width

unfoldable pub target_height : WallpaperQuery → Option ℕ
target_height q = if is_hd q.hd_video then some 1080 else q.height

abbrev pub or_number : ℕ → Option ℕ → ℕ
or_number fallback none = fallback
or_number fallback (some n) = n

abbrev pub res_dir_name : ℕ → ℕ → List ℕ
res_dir_name w h = decimal w ++ (codes "x" ++ decimal h)

abbrev pub picture_script : ℕ → ℕ → List ℕ → List ℕ → List ℕ
picture_script w h host_hdr path =
    codes "#!ipxe\nconsole --x "
    ++ (decimal w
        ++ (codes " --y "
            ++ (decimal h
                ++ (codes " --picture http://"
                    ++ (host_hdr
                        ++ (codes "/static/" ++ (path ++ codes " --depth 32 --keep || exit\n")))))))

abbrev pub console_script : ℕ → ℕ → List ℕ
console_script w h =
    codes "#!ipxe\nconsole --x "
    ++ (decimal w ++ (codes " --y " ++ (decimal h ++ codes " || exit\n")))

abbrev pub script_for : ℕ → ℕ → List ℕ → Option (List ℕ) → List ℕ
script_for w h host_hdr (some path) = picture_script w h host_hdr path
script_for w h host_hdr none = console_script w h

-- `prefix` before what was chosen.
abbrev pub prefixed : List ℕ → Option (List ℕ) → Option (List ℕ)
prefixed dir none = none
prefixed dir (some chosen) = some (dir ++ chosen)

-- `choose` is `IndexedRandom::choose` of the crate rand.
module _ (disk : Disk) (choose : List (List ℕ) → Option (List ℕ)) where
  -- A candidate of the directory, if it has one.
  abbrev pub pick : Components → Option (List ℕ)
  pick dir = elim (collect_wallpaper_candidates disk dir) [ [] ↦ none | c ∷ cs ↦ choose (c ∷ cs) ]

  abbrev pub in_resolved : List ℕ → Option Components → Option (List ℕ)
  in_resolved name none = none
  in_resolved name (some res_path) =
      prefixed (codes "wallpapers/" ++ (name ++ codes "/")) (pick res_path)

  -- The directory of a resolution.
  abbrev pub in_res_dir : Components → Option ℕ → Option ℕ → Option (List ℕ)
  in_res_dir wallpapers_root (some w) (some h) =
      in_resolved (res_dir_name w h) (safe_join disk.system wallpapers_root (res_dir_name w h))
  in_res_dir wallpapers_root (some w) none = none
  in_res_dir wallpapers_root none h = none

  unfoldable pub selected_path : Components → WallpaperQuery → Option (List ℕ)
  selected_path wallpapers_root q =
      elim (in_res_dir wallpapers_root (target_width q) (target_height q)) [
        | some path ↦ some path
        | none ↦ prefixed (codes "wallpapers/") (pick wallpapers_root)
      ]

  -- `static_dir.join("wallpapers")`
  abbrev pub wallpapers_root : Config → Components
  wallpapers_root config = disk.path_of config.server.static_dir ++ (codes "wallpapers" ∷ [])

  unfoldable pub wallpaper_handler : Config → HeaderMap → WallpaperQuery → Response
  wallpaper_handler config headers q = script_response ok (
      script_for (or_number 1024 (target_width q)) (or_number 768 (target_height q))
        (host_header headers) (selected_path (wallpapers_root config) q))
