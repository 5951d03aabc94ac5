-- ===== src/Pairing/Browsers/Restart.antt =====
-- The table holds what memory holds of every browser.
use mbrc_plugin.Base.{
  ℕ, String, ◌≡◌, refl, Option, none, some, [], ◌∷◌, arith, string_eq, or, some_inj, ap, sym, ◌∙◌,
}
use mathlib.Core.Path.{subst}
use mbrc_plugin.Base.Dict
use mbrc_plugin.Base.Dict.{Dict, get-insert, get-remove}
use mbrc_plugin.Base.Dict.Rows.{Distinct}
use mbrc_plugin.Store.{Tables}
use mbrc_plugin.Registry.{IpAddr}
use mbrc_plugin.Pairing.Browsers.{
  PairedClient, BrowserRecord, record_of, client_of, load, Browsers, write, forget, paired_id,
  forget_all,
}

abbrev stored : Option PairedClient → Option BrowserRecord
stored none = none
stored (some c) = some (record_of c)

abbrev loaded : Option BrowserRecord → Option PairedClient
loaded none = none
loaded (some r) = some (client_of r)

abbrev pub RowsNamed : Dict String BrowserRecord → Type 0
RowsNamed rows = (k : String) (r : BrowserRecord) → Dict.get k rows ≡ some r → r.id ≡ k

get-load :
    (k : String) (rows : Dict String BrowserRecord) (tokens : Dict String PairedClient)
    → Distinct rows
    → RowsNamed rows
    → Dict.get k (load rows tokens) ≡ or (loaded (Dict.get k rows)) (Dict.get k tokens)
unfolding load Dict.get
get-load k [] tokens d n = refl
get-load k ((j, r) ∷ rows) tokens (fresh, d) n =
    let later : RowsNamed rows =
      λ i q e. n i q (ground (arith, e, fresh, string_eq.same_iff j i)) in
    let named : r.id ≡ j = n j r (ground (arith, string_eq.same_iff j j)) in
    ground (
      arith,
      get-load k rows (Dict.insert r.id (client_of r) tokens) d later,
      get-insert k r.id (client_of r) tokens,
      string_eq.same_iff r.id k,
      string_eq.same_iff j k,
      named,
      fresh,
    )

same_stored :
    (o o' : Option PairedClient)
    → stored o ≡ stored o'
    → (elim o [ none ↦ none | some c ↦ some c.id ]) ≡ (elim o' [ none ↦ none | some c ↦ some c.id ])
same_stored none none e = refl
same_stored none (some c) e = cc
same_stored (some c) none e = cc
same_stored (some c) (some c') e = ap (λ (r : BrowserRecord). some r.id) (some_inj e)

stored_named :
    (o : Option PairedClient) (k : String) (r : BrowserRecord)
    → stored o ≡ some r
    → ((c : PairedClient) → o ≡ some c → c.id ≡ k)
    → r.id ≡ k
stored_named none k r e n = cc
stored_named (some c) k r e n = sym (ap (λ (q : BrowserRecord). q.id) (some_inj e)) ∙ n c refl

module _ (T : Tables String BrowserRecord) (sha1_hex : String → String)
    (ip_text : IpAddr → String) where
  -- The table `t` is attached and holds the record of every browser, under its id.
  pub record IsMirrored (tokens : Dict String PairedClient) (db : Option T.Table) (t : T.Table)
      : Type 0 where
    pub attached : db ≡ some t
    pub agrees : (k : String) → T.get k t ≡ stored (Dict.get k tokens)
    pub named : (k : String) (c : PairedClient) → Dict.get k tokens ≡ some c → c.id ≡ k

  put-IsMirrored :
      (c : PairedClient) (tokens : Dict String PairedClient) (db : Option T.Table) (t : T.Table)
      → IsMirrored tokens db t
      → IsMirrored
          (Dict.insert c.id c tokens)
          (write T sha1_hex ip_text c db)
          (T.insert c.id (record_of c) t)
  put-IsMirrored c tokens db t m = record {
    attached = rw m.attached refl;
    agrees = λ k.
        ground (arith, m.agrees k, T.get-insert k c.id (record_of c) t, get-insert k c.id c tokens);
    named = λ k d e.
        ground (arith, m.named k d, get-insert k c.id c tokens, string_eq.same_iff c.id k, e);
  }

  pub drop-IsMirrored :
      (id : String) (tokens : Dict String PairedClient) (db : Option T.Table) (t : T.Table)
      → IsMirrored tokens db t
      → IsMirrored (Dict.remove id tokens) (forget T sha1_hex ip_text id db) (T.remove id t)
  drop-IsMirrored id tokens db t m = record {
    attached = rw m.attached refl;
    agrees = λ k. ground (arith, m.agrees k, T.get-remove k id t, get-remove k id tokens);
    named = λ k d e. ground (arith, m.named k d, get-remove k id tokens, e);
  }

  abbrev pub drop_all : Dict String PairedClient → T.Table → T.Table
  drop_all [] t = t
  drop_all ((id, c) ∷ tokens) t = drop_all tokens (T.remove id t)

  forget_all-drop_all :
      (tokens : Dict String PairedClient) (t : T.Table)
      → forget_all T sha1_hex ip_text tokens (some t) ≡ some (drop_all tokens t)
  unfolding forget_all
  forget_all-drop_all [] t = refl
  forget_all-drop_all ((id, c) ∷ tokens) t = forget_all-drop_all tokens (T.remove id t)

  get-drop_all :
      (k : String) (tokens : Dict String PairedClient) (t : T.Table)
      → T.get k (drop_all tokens t)
        ≡ (elim (Dict.get k tokens) [ none ↦ T.get k t | some c ↦ none ])
  unfolding Dict.get
  get-drop_all k [] t = refl
  get-drop_all k ((id, c) ∷ tokens) t =
      ground (arith, get-drop_all k tokens (T.remove id t), T.get-remove k id t)

  pub all_dropped :
      (tokens : Dict String PairedClient) (db : Option T.Table) (t : T.Table)
      → IsMirrored tokens db t
      → IsMirrored [] (forget_all T sha1_hex ip_text tokens db) (drop_all tokens t)
  unfolding Dict.get
  all_dropped tokens db t m = record {
    attached = rw m.attached (forget_all-drop_all tokens t);
    agrees = λ k. ground (arith, get-drop_all k tokens t, m.agrees k);
    named = λ k d e. cc;
  }

  -- Whom a token names, and whether a token is known is not changed by the moment it is seen.
  pub paired_id_lem :
      (token : String) (from : Option IpAddr) (time : ℕ) (s : Browsers T sha1_hex ip_text)
      → (paired_id T sha1_hex ip_text token from time s).0
        ≡ (elim (Dict.get (sha1_hex token) s.tokens) [ none ↦ none | some c ↦ some c.id ])
  unfolding paired_id
  paired_id_lem token none time s = ground arith
  paired_id_lem token (some ip) time s = ground arith

  pub same_ids :
      (token : String) (from : Option IpAddr) (time : ℕ) (s s' : Browsers T sha1_hex ip_text)
      (t : T.Table)
      → IsMirrored s.tokens s.db t
      → IsMirrored s'.tokens s'.db t
      → (paired_id T sha1_hex ip_text token from time s).0
        ≡ (paired_id T sha1_hex ip_text token from time s').0
  same_ids token from time s s' t m m' =
      let h = sha1_hex token in
      paired_id_lem token from time s
      ∙ same_stored (Dict.get h s.tokens) (Dict.get h s'.tokens) (sym (m.agrees h) ∙ m'.agrees h)
      ∙ sym (paired_id_lem token from time s')

  pub open_lem : (t : T.Table) → RowsNamed (T.rows t) → IsMirrored (load (T.rows t) []) (some t) t
  unfolding Dict.get
  open_lem t n = record {
    attached = refl;
    agrees = λ k. ground (arith, get-load k (T.rows t) [] (T.rows-Distinct t) n, T.get-rows k t);
    named = λ k c e.
        ground (arith, e, get-load k (T.rows t) [] (T.rows-Distinct t) n, n k (record_of c));
  }

  pub rows-named :
      (tokens : Dict String PairedClient) (db : Option T.Table) (t : T.Table)
      → IsMirrored tokens db t
      → RowsNamed (T.rows t)
  rows-named tokens db t m k r e =
      stored_named (Dict.get k tokens) k r (sym (m.agrees k) ∙ sym (T.get-rows k t) ∙ e) (m.named k)

  pub put_at :
      (k : String) (c : PairedClient) (tokens : Dict String PairedClient) (db : Option T.Table)
      (t : T.Table)
      → c.id ≡ k
      → IsMirrored tokens db t
      → IsMirrored
          (Dict.insert k c tokens)
          (write T sha1_hex ip_text c db)
          (T.insert c.id (record_of c) t)
  put_at k c tokens db t same m =
      subst
        (λ (i : String).
          IsMirrored (Dict.insert i c tokens) (write T sha1_hex ip_text c db)
            (T.insert c.id (record_of c) t))
        same (put-IsMirrored c tokens db t m)
