-- ===== src/CommandsV6/Playlists/Writes.antt =====
-- What a write to a playlist has checked before it reaches the host.
use mbrc_plugin.Base.{
  String, true, ◌≡◌, refl, ap, ◌∙◌, ◌⊎◌, inl, inr, Option, none, some, List, ◌==◌, string_eq,
  Bool-cases,
}
use mbrc_plugin.Json.{Json}
use mbrc_plugin.Json.Build.{JsonBuild}
use mbrc_plugin.CommandsV6.{OpResult, done, fails, ◌>>>◌, req_i64, req_str, opt_str}
use mbrc_plugin.CommandsV6.NowPlayingList.{or_internal, orders_highest_first}
use mbrc_plugin.CommandsV6.Playlists.{
  PlaylistHost, PlaylistFiles, known, editable, Wrote, unless_fails, known_files, if_known,
}
use mbrc_plugin.CommandsV6.Playlists.Edits.{
  if_current, if_editable, editable_files, add_tracks, remove_tracks, move_tracks, set_tracks,
}

-- The writes that change the tracks of a playlist.
pub data Edit : Type 0 where
  adding removing moving setting : Edit

module _ (J : Json) (B : JsonBuild J) (H : PlaylistHost) (version_of : List String → String)
    (scope_paths : J.Value → H.World → OpResult (List String)) where
  open J use {Value}
  open H use {World, playlist_files}

  abbrev pub edit : Edit → Value → World → Wrote J B H
  edit adding v w = add_tracks J B H version_of scope_paths v w
  edit removing v w = remove_tracks J B H version_of scope_paths v w
  edit moving v w = move_tracks J B H version_of scope_paths v w
  edit setting v w = set_tracks J B H version_of scope_paths v w

  -- The version that the request names, if it names one, is that of these contents.
  abbrev pub IsCurrent : Value → List String → Type 0
  IsCurrent v ps =
      (opt_str J v "version" ≡ done none) ⊎ (opt_str J v "version" ≡ done (some (version_of ps)))

  -- The playlist that the request names holds a list of tracks, at the version that it names.
  abbrev pub MayEdit : Value → World → Type 0
  MayEdit v w =
      (url : String) × (f : PlaylistFiles) × (req_str J v "url" ≡ done url)
      × (playlist_files url w ≡ inr f)
      × (editable f.kind ≡ true)
      × IsCurrent v f.paths

  abbrev IsFailure : OpResult Value → Type 0
  IsFailure (done v) = ⊥
  IsFailure (fails code message at) = Unit

  abbrev pub IsChecked : Value → World → Wrote J B H → Type 0
  IsChecked v w r = ((r.world ≡ w) × IsFailure r.answer) ⊎ MayEdit v w

  -- What `editable_files` has found out of a playlist that it returns.
  abbrev Passed : Value → String → World → OpResult PlaylistFiles → Type 0
  Passed v url w (fails code message at) = Unit
  Passed v url w (done f) =
      (playlist_files url w ≡ inr f) × (editable f.kind ≡ true) × IsCurrent v f.paths

  if_current-Passed :
      (v : Value) (url : String) (w : World) (f : PlaylistFiles) (r : OpResult (Option String))
      → opt_str J v "version" ≡ r
      → playlist_files url w ≡ inr f
      → editable f.kind ≡ true
      → Passed v url w (r >>> if_current J B H version_of scope_paths f)
  if_current-Passed v url w f (fails code message at) e p ed = tt
  if_current-Passed v url w f (done none) e p ed = (p, ed, inl e)
  if_current-Passed v url w f (done (some x)) e p ed = elim (Bool-cases (x == version_of f.paths)) [
    | inl same ↦
        let named : x ≡ version_of f.paths = (string_eq.same_iff x (version_of f.paths)).0 same in
        rw (same, if_current) (p, ed, inr (e ∙ ap (λ y. done (some y)) named))
    | inr differ ↦ rw (differ, if_current) tt
  ]

  if_editable-Passed :
      (v : Value) (url : String) (w : World) (f : PlaylistFiles)
      → playlist_files url w ≡ inr f
      → Passed v url w (if_editable J B H version_of scope_paths v f)
  if_editable-Passed v url w f p = elim (Bool-cases (editable f.kind)) [
    | inl ed ↦ rw (ed, if_editable) (if_current-Passed v url w f (opt_str J v "version") refl p ed)
    | inr fixed ↦ rw (fixed, if_editable) tt
  ]

  known-Passed :
      (v : Value) (url : String) (w : World) (r : String ⊎ PlaylistFiles)
      → playlist_files url w ≡ r
      → Passed v url w
          (or_internal r >>> if_known J B H >>> if_editable J B H version_of scope_paths v)
  known-Passed v url w (inl e) p = tt
  known-Passed v url w (inr f) p = elim (Bool-cases (known f.kind)) [
    | inl k ↦ rw (k, if_known) (if_editable-Passed v url w f p)
    | inr k ↦ rw (k, if_known) tt
  ]

  editable_files-Passed :
      (v : Value) (url : String) (w : World)
      → Passed v url w (editable_files J B H version_of scope_paths v url w)
  unfolding editable_files known_files
  editable_files-Passed v url w = known-Passed v url w (playlist_files url w) refl

  url-IsChecked :
      (v : Value) (w : World) (r : OpResult String) (k : String → Wrote J B H)
      → req_str J v "url" ≡ r
      → ((url : String) → req_str J v "url" ≡ done url → IsChecked v w (k url))
      → IsChecked v w (unless_fails J B H r w k)
  url-IsChecked v w (fails code message at) k e h = inl (refl, tt)
  url-IsChecked v w (done url) k e h = h url e

  read-IsChecked :
      {A : Type 0} (v : Value) (w : World) (r : OpResult A) (k : A → Wrote J B H)
      → ((x : A) → IsChecked v w (k x))
      → IsChecked v w (unless_fails J B H r w k)
  read-IsChecked v w (fails code message at) k h = inl (refl, tt)
  read-IsChecked v w (done x) k h = h x

  files-IsChecked :
      (v : Value) (url : String) (w : World) (r : OpResult PlaylistFiles)
      (k : PlaylistFiles → Wrote J B H)
      → req_str J v "url" ≡ done url
      → Passed v url w r
      → IsChecked v w (unless_fails J B H r w k)
  files-IsChecked v url w (fails code message at) k e p = inl (refl, tt)
  files-IsChecked v url w (done f) k e (p, ed, now) = inr (url, f, e, p, ed, now)

  -- A write to the tracks of a playlist fails and changes nothing, unless the url that it names is
  -- that of a playlist whose tracks can be edited, and the version that it names, if any, is that of
  -- the tracks that the playlist holds.
  pub edit-IsChecked : (e : Edit) (v : Value) (w : World) → IsChecked v w (edit e v w)
  unfolding add_tracks remove_tracks move_tracks set_tracks
  edit-IsChecked adding v w =
      url-IsChecked v w (req_str J v "url") _ refl
        (λ url e. files-IsChecked v url w _ _ e (editable_files-Passed v url w))
  edit-IsChecked removing v w = url-IsChecked v w (req_str J v "url") _ refl (λ url e.
      read-IsChecked v w (orders_highest_first J v "orders") _
        (λ os. files-IsChecked v url w _ _ e (editable_files-Passed v url w)))
  edit-IsChecked moving v w = url-IsChecked v w (req_str J v "url") _ refl (λ url e.
      read-IsChecked v w (orders_highest_first J v "from_orders") _ (λ os.
        read-IsChecked v w (req_i64 J v "to_order") _
          (λ to. files-IsChecked v url w _ _ e (editable_files-Passed v url w))))
  edit-IsChecked setting v w =
      url-IsChecked v w (req_str J v "url") _ refl
        (λ url e. files-IsChecked v url w _ _ e (editable_files-Passed v url w))
