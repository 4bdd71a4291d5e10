-- ===== src/Accounts/Tokens.antt =====
-- crates/keeplin-srv/src/store.rs: a mailed token serves once, and a user has few that serve.
use keeplin_srv.Base.{
  ℕ, ◌+◌, ◌*◌, ◌≤◌, ◌<◌, ◌≡◌, refl, Bool, true, none, some, List, [], ◌∷◌, find, update_first,
  count_where, ltb, if◌then◌else◌, nat_key, ok, arith, Option-cases, inl, inr, eq_refl,
}
use keeplin_srv.Protocol.{Uuid, Time, Text}
use keeplin_srv.Tables.{text_eq}
use keeplin_srv.Accounts.{
  MailKind, verify_email, password_reset, access_revoked, same_kind, EmailToken, live_tokens,
  max_live_email_tokens, create_email_token, matches_token, consume_email_token,
}

pub text_eq_refl : (t : Text) → text_eq t t ≡ true
text_eq_refl [] = refl
text_eq_refl (x ∷ xs) = rw (eq_refl x) (text_eq_refl xs)

same_kind_refl : (k : MailKind) → same_kind k k ≡ true
same_kind_refl verify_email = refl
same_kind_refl password_reset = refl
same_kind_refl access_revoked = refl

module _ (token_hash : Text → Text) where
  abbrev pub has_hash : Text → EmailToken → Bool
  has_hash hash t = text_eq t.token_hash hash

  -- The hashes are a key of the table.
  abbrev pub IsKey : List EmailToken → Text → Type 0
  IsKey rows raw = count_where (has_hash (token_hash raw)) rows ≤ 1

  find-no_hash :
      (now : Time) (kind : MailKind) (hash : Text) (rows : List EmailToken)
      → count_where (has_hash hash) rows ≡ 0
      → find (matches_token token_hash now kind hash) rows ≡ none
  unfolding find count_where
  find-no_hash now kind hash [] h = refl
  find-no_hash now kind hash (t ∷ rows) h = ground (arith, find-no_hash now kind hash rows)

  find-used :
      (now later : Time) (kind kind' : MailKind) (hash : Text) (rows : List EmailToken)
      (t : EmailToken)
      → count_where (has_hash hash) rows ≤ 1
      → find (matches_token token_hash now kind hash) rows ≡ some t
      → find (matches_token token_hash later kind' hash) (
          update_first
            (matches_token token_hash now kind hash)
            (λ (t : EmailToken). record t { used_at = some now })
            rows)
        ≡ none
  unfolding find update_first count_where
  find-used now later kind kind' hash [] t u h = ground (arith, h)
  find-used now later kind kind' hash (x ∷ rows) t u h = ground (
    arith,
    find-used now later kind kind' hash rows t,
    find-no_hash later kind' hash rows,
    find-no_hash now kind hash rows,
  )

  -- A token that has served does not serve again, at any later time and for no kind of mail.
  pub consume_email_token-once :
      (rows : List EmailToken) (now later : Time) (kind kind' : MailKind) (raw : Text) (user : Uuid)
      → IsKey rows raw
      → (consume_email_token token_hash rows now kind raw).0 ≡ some user
      → (consume_email_token token_hash
          (consume_email_token token_hash rows now kind raw).1
          later
          kind'
          raw).0
        ≡ none
  unfolding consume_email_token
  consume_email_token-once rows now later kind kind' raw user key h =
      elim (Option-cases (find (matches_token token_hash now kind (token_hash raw)) rows)) [
        | inl e ↦ absurd (ground (arith, e, h))
        | inr (t, e) ↦ rw (find-used now later kind kind' (token_hash raw) rows t key e) refl
      ]

  -- A token that is made serves its user, for its kind of mail, until it expires; and a user is given one
  -- only below the limit of five that serve.
  pub create_email_token-consume :
      (rows rows' : List EmailToken) (now later : Time) (kind : MailKind) (user : Uuid)
      (ttl_secs : ℕ) (raw : Text) (expires_at : Time)
      → create_email_token token_hash rows now user kind ttl_secs raw ≡ ok (expires_at, rows')
      → count_where (has_hash (token_hash raw)) rows ≡ 0
      → ((consume_email_token token_hash rows' later kind raw).0
          ≡ (if ltb later (now + ttl_secs * 1000000) then some user else none))
        × (live_tokens rows' now user kind ≤ max_live_email_tokens)
  unfolding create_email_token consume_email_token count_where
  create_email_token-consume rows rows' now later kind user ttl_secs raw expires_at h fresh =
      let made : rows'
          ≡ record {
            user_id = user;
            kind = kind;
            token_hash = token_hash raw;
            expires_at = now + ttl_secs * 1000000;
            used_at = none;
          }
            ∷ rows =
        ground (arith, h) in
      let few : live_tokens rows now user kind < max_live_email_tokens = ground (arith, h) in
      (
        rw made (
            unfold find in
            ground (
              arith,
              text_eq_refl (token_hash raw),
              same_kind_refl kind,
              find-no_hash later kind (token_hash raw) rows fresh,
            )),
        rw made (ground (arith, few)),
      )
