-- ===== src/Http/Served.antt =====
-- crates/bootycall-http/src/server.rs: which files are served.
use booty_call.Prelude.{
  ℕ, ◌≡◌, refl, not, ◌||◌, true, false, none, some, List, [], arith, Bool-cases, Option-cases, inl,
  inr,
}
use booty_call.Core.Path.{Components, safe_join}
use booty_call.Core.Path.Confined.{IsConfined, safe_join-IsConfined}
use booty_call.Http.{
  StatusCode, ok, forbidden, not_found, internal_server_error, Body, text, stream, Response,
  content_type_for, Disk, serve_resolved, serve_file_from_dir,
}

-- The path leads out of the directory, or is not served for another reason.
abbrev IsRefusal : Disk → Components → List ℕ → StatusCode → Type 0
IsRefusal disk dir requested forbidden = safe_join disk.system dir requested ≡ none
IsRefusal disk dir requested not_found =
    (path : Components) × (safe_join disk.system dir requested ≡ some path)
    × ((not (disk.system.exists path) || not (disk.is_file path)) ≡ true)
IsRefusal disk dir requested internal_server_error =
    (path : Components) × (safe_join disk.system dir requested ≡ some path)
    × (disk.opens path ≡ false)
IsRefusal disk dir requested code = ⊥

abbrev IsStreamed : Disk → Components → List ℕ → Components → Response → Type 0
IsStreamed disk dir requested path r =
    (r.status ≡ ok)
    × (r.content_type ≡ some (content_type_for requested))
    × IsConfined disk.system dir requested path
    × (disk.system.exists path ≡ true)
    × (disk.is_file path ≡ true)
    × (disk.opens path ≡ true)

-- An answer of the file server: a file that may be served, or a refusal without a body.
abbrev ByBody : Disk → Components → List ℕ → Body → Response → Type 0
ByBody disk dir requested (text body) r = (body ≡ []) × IsRefusal disk dir requested r.status
ByBody disk dir requested (stream path) r = IsStreamed disk dir requested path r

abbrev pub IsServed : Disk → Components → List ℕ → Response → Type 0
IsServed disk dir requested r = ByBody disk dir requested r.body r

module _ (disk : Disk) (dir : Components) (requested : List ℕ) where
  existing :
      (path : Components)
      → safe_join disk.system dir requested ≡ some path
      → IsServed disk dir requested (serve_resolved disk requested (some path))
  existing path e = elim (Bool-cases (not (disk.system.exists path) || not (disk.is_file path))) [
    | inl missing ↦ rw (missing, IsServed, ByBody, IsRefusal) (refl, (path, e, missing))
    | inr found ↦ elim (Bool-cases (disk.opens path)) [
      | inr closed ↦ rw (found, closed, IsServed, ByBody, IsRefusal) (refl, (path, e, closed))
      | inl opened ↦
          rw (found, opened, IsServed, ByBody)
            (
              refl,
              refl,
              safe_join-IsConfined disk.system dir requested path e,
              ground (arith, found),
              ground (arith, found),
              opened,
            )
    ]
  ]

  -- The file server streams only a path that `safe_join` confines to the directory, and only where a regular
  -- file stands that it can open, with the type of the request's extension. Otherwise it answers
  -- without a body: 403 when the path is refused, 404 when no regular file is there, 500 when
  -- the file cannot be opened.
  pub serve_file_from_dir-IsServed :
      IsServed disk dir requested (serve_file_from_dir disk dir requested)
  unfolding serve_file_from_dir
  serve_file_from_dir-IsServed = elim (Option-cases (safe_join disk.system dir requested)) [
    | inl e ↦ rw (e, IsServed, ByBody, IsRefusal) (refl, e)
    | inr (path, e) ↦ rw (e, IsServed) (existing path e)
  ]
