-- ===== src/Clients/Kept.antt =====
-- What a token is worth while its app holds a role: the identities
-- (packages/mbrc-core/src/server/clients.rs) beside the roles and their table
-- (packages/mbrc-core/src/server/permissions/roles.rs), over any handshakes and any changes of the
-- roles.
use Prim.Native.String
use mbrc_plugin.Base.{
  String, true, ◌≡◌, ◌∙◌, none, some, List, [], ◌∷◌, arith, if◌then◌else◌, ◌==◌, string_eq, inl,
  inr, Option-cases, is_some, unwrap_or, ◌>>=◌,
}
use mbrc_plugin.Base.Dict
use mbrc_plugin.Base.Order.{text_order}
use mbrc_plugin.Base.Sorting.{member}
use mbrc_plugin.Store.{Tables}
use mbrc_plugin.Store.Ordered.{OrderedTables}
use mbrc_plugin.Permissions.Principal.{app, key, app_prefix}
use mbrc_plugin.Permissions.Roles.{Roles, new_roles, open_roles}
use mbrc_plugin.Permissions.Roles.Restart
use mbrc_plugin.Permissions.Roles.Restart.{
  RoleChange, IsMirrored, open_roles-IsMirrored, apply-IsMirrored, run-IsMirrored,
}
use mbrc_plugin.Clients.{RecordCodec, Identity, known, refused, pinned_apps}
use mbrc_plugin.Clients.Pinned.{member-pinned_from}
use mbrc_plugin.Clients.Tokens.{Contact, contact, HeldBy, contact-HeldBy, identify-HeldBy}

-- What happens to the server: a handshake, or a change that the host makes to the roles.
pub data Event : Type 0 where
  arriving : Contact → Event
  changing : RoleChange → Event

module _ {Stored : Type 0} (K : RecordCodec Stored) (T : Tables String Stored)
    (hash : String → String) (R : OrderedTables String String) where
  open T use {Table}
  open R use {tables}

  -- The roles, in memory and in their table, and the table of identities, of one database.
  pub record Server : Type 0 where
    pub roles : Roles tables
    pub identities : Table

  -- A handshake with the apps pinned that have a row in the table of roles; `stored` is that table
  -- where none is attached.
  abbrev pub answer : (stored : R.Table) → Contact → Server → Identity × Table
  answer stored c s =
      contact K T hash (pinned_apps tables (unwrap_or s.roles.db stored)) c s.identities

  abbrev pub step : (stored : R.Table) → Event → Server → Server
  step stored (arriving c) s = record s { identities = (answer stored c s).1 }
  step stored (changing c) s = record s { roles = Restart.apply tables c s.roles }

  abbrev pub run_all : (stored : R.Table) → List Event → Server → Server
  run_all stored [] s = s
  run_all stored (e ∷ es) s = run_all stored es (step stored e s)

  -- A start on the table `stored`, and the changes of the roles since.
  abbrev pub started : List RoleChange → (stored : R.Table) → Table → Server
  started given stored identities = record {
    roles = Restart.run tables given (open_roles tables stored (new_roles tables));
    identities = identities;
  }

  -- Memory has a role for the app.
  abbrev pub HoldsRole : String → Server → Type 0
  HoldsRole id s = is_some (key (app id) >>= λ k. Dict.get k s.roles.assigned) ≡ true

  -- It has one before each event and after the last.
  abbrev pub HoldsThroughout : (stored : R.Table) → String → List Event → Server → Type 0
  HoldsThroughout stored id [] s = HoldsRole id s
  HoldsThroughout stored id (e ∷ es) s =
      HoldsRole id s × HoldsThroughout stored id es (step stored e s)

  -- An app with a role in memory is pinned.
  holds-pinned :
      (stored t : R.Table) (id : String) (s : Server)
      → IsMirrored tables s.roles t
      → HoldsRole id s
      → member id (pinned_apps tables (unwrap_or s.roles.db stored)) ≡ true
  unfolding key
  holds-pinned stored t id s m held =
      let own = String.◌++◌ app_prefix id in
      elim (Option-cases (R.get own t)) [
        | inl none_stored ↦ ground (arith, m.agrees own)
        | inr (v, row) ↦
            rw m.attached
              (member-pinned_from id v (R.rows t) (R.rows_ascend t) (R.get-rows own t ∙ row))
      ]

  step-IsMirrored :
      (stored t : R.Table) (e : Event) (s : Server)
      → IsMirrored tables s.roles t
      → (t' : R.Table) × IsMirrored tables (step stored e s).roles t'
  step-IsMirrored stored t (arriving c) s m = (t, m)
  step-IsMirrored stored t (changing c) s m = apply-IsMirrored tables c s.roles t m

  step-HeldBy :
      (stored t : R.Table) (id h : String) (e : Event) (s : Server)
      → IsMirrored tables s.roles t
      → HoldsRole id s
      → HeldBy K T hash id h s.identities
      → HeldBy K T hash id h (step stored e s).identities
  step-HeldBy stored t id h (arriving c) s m role held =
      contact-HeldBy K T hash id h _ c s.identities (holds-pinned stored t id s m role) held
  step-HeldBy stored t id h (changing c) s m role held = held

  run_all-HeldBy :
      (stored t : R.Table) (id h : String) (es : List Event) (s : Server)
      → IsMirrored tables s.roles t
      → HoldsThroughout stored id es s
      → HeldBy K T hash id h s.identities
      → HeldBy K T hash id h (run_all stored es s).identities
  run_all-HeldBy stored t id h [] s m role held = held
  run_all-HeldBy stored t id h (e ∷ es) s m role held =
      let (t', m') = step-IsMirrored stored t e s m in
      run_all-HeldBy stored t' id h es (step stored e s) m' role.1
        (step-HeldBy stored t id h e s m role.0 held)

  -- An app whose `client_id` was issued a token that hashes to `h` and that has a role in memory
  -- before each handshake and each change of the roles that follow, and after them, is then known
  -- exactly to whoever presents a token that hashes to `h`, and refused to everyone else. The
  -- roles are those of a server that started on the table `stored` and took the changes `given`.
  pub answer-run_all :
      (stored : R.Table) (given : List RoleChange) (identities : Table) (id h : String)
      (es : List Event) (c : Contact)
      → c.client_id ≡ id
      → HeldBy K T hash id h identities
      → HoldsThroughout stored id es (started given stored identities)
      → (answer stored c (run_all stored es (started given stored identities))).0
        ≡ (elim c.token [ none ↦ refused | some x ↦ if hash x == h then known else refused ])
  answer-run_all stored given identities id h es c e held role =
      let start = open_roles tables stored (new_roles tables) in
      let s = started given stored identities in
      let (t, m) = run-IsMirrored tables given start stored (open_roles-IsMirrored tables stored) in
      rw e (
        identify-HeldBy K T hash id h c.fresh_token _ c.now c.token c.about _
          (run_all-HeldBy stored t id h es s m role held))
