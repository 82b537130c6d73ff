-- ===== src/Inputs/Targets/ChannelIds.antt =====
-- The forms in which a channel id is written.
use paperboy.Base.{
  ℕ, ◌≡◌, refl, ◌∙◌, true, false, none, some, [], ◌∷◌, ◌++◌, arith, if◌then◌else◌, leb, All,
  All-append,
}
use paperboy.Base.Text.{Text, codes, is_space}
use paperboy.Base.Decimal.{
  decimal, is_digit, IsDigits, decimal-IsDigits, value-decimal, Begins, Begins-decimal,
}
use paperboy.Inputs.Scan.{
  after_site, run, rest, run-All, rest-All, is_run, is_run-decimal, is_word, IsSpaceless,
  strip_spaceless, IsDigits-IsSpaceless,
}
use paperboy.Inputs.Targets.{
  peer_id, target, unsupported, beyond_64_bits, sqlite_max_int, peer_id_target, parse_body,
  parse_stripped, parse_target, invite_plus, invite_joinchat, private_id, private_link,
  message_link, by_username, by_phone, by_hashtag, marked_id, bare_id, handle_message,
}

-- A channel id as people write it: bare, with Telegram's `-100` mark, and as a private link.
pub data Form : Type 0 where
  bare marked private_path private_url : Form

abbrev pub written : Form → ℕ → Text
written bare n = decimal n
written marked n = codes "-100" ++ decimal n
written private_path n = codes "t.me/c/" ++ decimal n
written private_url n = codes "https://t.me/c/" ++ decimal n

digits_are_words : (t : Text) → IsDigits t → All (λ c. is_word c ≡ true) t
digits_are_words [] h = tt
digits_are_words (c ∷ cs) h = (ground (arith, h.0), digits_are_words cs h.1)

module _ (raw : Text) (c : ℕ) (cs : Text) (d : is_digit c ≡ true) where
  no_site : after_site (c ∷ cs) ≡ none
  unfolding after_site
  no_site = ground arith

  no_invite : invite_plus raw (c ∷ cs) ≡ none
  unfolding invite_plus
  no_invite = ground arith

  no_joinchat : invite_joinchat raw (c ∷ cs) ≡ none
  unfolding invite_joinchat
  no_joinchat = ground arith

  no_private : private_link raw (c ∷ cs) ≡ none
  unfolding private_link
  no_private = ground arith

  no_username : by_username raw (c ∷ cs) ≡ none
  unfolding by_username
  no_username = ground arith

  no_phone : by_phone raw (c ∷ cs) ≡ none
  unfolding by_phone
  no_phone = ground arith

  no_hashtag : by_hashtag raw (c ∷ cs) ≡ none
  unfolding by_hashtag
  no_hashtag = ground arith

  no_mark : marked_id raw (c ∷ cs) ≡ none
  unfolding marked_id
  no_mark = ground arith

  no_message : IsDigits cs → message_link raw (c ∷ cs) ≡ none
  unfolding message_link
  no_message ds = rw (rest-All is_word (c ∷ cs) (digits_are_words (c ∷ cs) (d, ds))) refl

  body_of_digits :
      IsDigits cs
      → is_run is_digit (c ∷ cs) ≡ true
      → parse_body raw (c ∷ cs) ≡ peer_id_target raw (c ∷ cs) none
  unfolding parse_body bare_id
  body_of_digits ds all =
      rw
        (
          no_invite,
          no_joinchat,
          no_private,
          no_username,
          no_phone,
          no_hashtag,
          no_mark,
          no_message ds,
        )
        (rw all)

run-decimal : (n : ℕ) → run is_digit (decimal n) ≡ decimal n
run-decimal n = run-All is_digit (decimal n) (decimal-IsDigits n)

rest-decimal : (n : ℕ) → rest is_digit (decimal n) ≡ []
rest-decimal n = rest-All is_digit (decimal n) (decimal-IsDigits n)

module _ (raw : Text) (n : ℕ) where
  private_of_decimal :
      (t : Text) → Begins t → private_id raw t [] ≡ some (peer_id_target raw t none)
  unfolding private_id
  private_of_decimal t (c, cs, e) = rw e refl

  private_body : parse_body raw (codes "c/" ++ decimal n) ≡ peer_id_target raw (decimal n) none
  unfolding parse_body invite_plus invite_joinchat private_link
  private_body =
      rw (run-decimal n, rest-decimal n, private_of_decimal (decimal n) (Begins-decimal n)) refl

  marked_body : parse_body raw (codes "-100" ++ decimal n) ≡ peer_id_target raw (decimal n) none
  unfolding parse_body invite_plus invite_joinchat private_link message_link by_username by_phone
      by_hashtag marked_id handle_message run rest
  marked_body = rw (is_run-decimal n) refl

  bare_body : Begins (decimal n) → parse_body raw (decimal n) ≡ peer_id_target raw (decimal n) none
  bare_body (c, cs, e) =
      let ds : IsDigits (c ∷ cs) = rw e at (decimal-IsDigits n) in
      let all : is_run is_digit (c ∷ cs) ≡ true = rw e at (is_run-decimal n) in
      rw e (body_of_digits raw c cs ds.0 ds.1 all)

IsSpaceless-decimal : (n : ℕ) → IsSpaceless (decimal n)
IsSpaceless-decimal n = IsDigits-IsSpaceless (decimal n) (decimal-IsDigits n)

IsSpaceless-written : (f : Form) (n : ℕ) → IsSpaceless (written f n)
IsSpaceless-written bare n = IsSpaceless-decimal n
IsSpaceless-written marked n = (refl, (refl, (refl, (refl, IsSpaceless-decimal n))))
IsSpaceless-written private_path n =
    All-append (λ c. is_space c ≡ false) (codes "t.me/c/") (decimal n) (ground arith)
      (IsSpaceless-decimal n)
IsSpaceless-written private_url n =
    All-append (λ c. is_space c ≡ false) (codes "https://t.me/c/") (decimal n) (ground arith)
      (IsSpaceless-decimal n)

stripped_digits :
    (raw : Text) (n : ℕ)
    → Begins (decimal n)
    → parse_stripped raw (decimal n) ≡ parse_body raw (decimal n)
unfolding parse_stripped
stripped_digits raw n (c, cs, e) =
    let ds : IsDigits (c ∷ cs) = rw e at (decimal-IsDigits n) in rw (e, no_site raw c cs ds.0) refl

stripped_written :
    (raw : Text) (f : Form) (n : ℕ)
    → parse_stripped raw (written f n) ≡ peer_id_target raw (decimal n) none
unfolding parse_stripped after_site
stripped_written raw bare n =
    stripped_digits raw n (Begins-decimal n) ∙ bare_body raw n (Begins-decimal n)
stripped_written raw marked n = marked_body raw n
stripped_written raw private_path n = private_body raw n
stripped_written raw private_url n = private_body raw n

-- Every form in which the channel id `n` is written, bare, marked with `-100` or as a private link,
-- is parsed to the channel target of value `n`, which is not a message, if `n` fits in a signed
-- 64-bit integer. Beyond that it is refused for its size, whatever the form.
pub parse_target-written :
    (f : Form) (n : ℕ)
    → parse_target (written f n) ≡ (
        if leb n sqlite_max_int
        then target (record { kind = peer_id; raw = written f n; value = decimal n; msg_id = none })
        else unsupported beyond_64_bits)
unfolding parse_target peer_id_target
parse_target-written f n =
    rw (strip_spaceless (written f n) (IsSpaceless-written f n))
      (rw (stripped_written (written f n) f n, value-decimal n) refl)
