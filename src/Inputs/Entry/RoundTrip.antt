-- ===== src/Inputs/Entry/RoundTrip.antt =====
-- The uri of a row is read back as the same message.
use paperboy.Base.{
  ℕ, ◌≡◌, ◌∙◌, refl, sym, true, false, none, some, [], ◌∷◌, ◌++◌, arith, inl, inr, All, All-append,
}
use mathlib.Core.Path.{subst}
use paperboy.Base.Text.{Text, codes, is_space}
use paperboy.Base.Decimal.{value, value-decimal, decimal, decimal-IsDigits, Begins, Begins-decimal}
use paperboy.Inputs.Scan.{
  after_nocase, after_site, run-append, rest-append, is_word, is_handle, IsSpaceless,
  strip_spaceless, IsDigits-IsSpaceless,
}
use paperboy.Inputs.Entry.{
  Entry, match_msg, site_channel, match_link_c, handle_message, site_handle, match_link_user,
  parse_uri, normal_uri,
}
use paperboy.Inputs.Entry.Names.{run-decimal, rest-decimal, parse_uri-msg_uri, IsName}
use paperboy.Inputs.Entry.Accepting.{Accepted, parse_uri-Accepted}

word_spaceless : (c : ℕ) → is_word c ≡ true → is_space c ≡ false
word_spaceless c h = ground arith

words-IsSpaceless : (t : Text) → All (λ c. is_word c ≡ true) t → IsSpaceless t
words-IsSpaceless [] h = tt
words-IsSpaceless (c ∷ cs) h = (word_spaceless c h.0, words-IsSpaceless cs h.1)

not_private : (name t : Text) → IsName name → after_nocase (codes "c/") (name ++ b'/' ∷ t) ≡ none
not_private [] t h = absurd (of_handle h.handle)
  where
    of_handle : is_handle [] ≡ true → ⊥
    of_handle g = cc
not_private (c ∷ []) t h = ground (arith, h.words, h.not_c, h.lowered)
not_private (c ∷ d ∷ cs) t h = ground (arith, h.words.1.0)

handle_message_begun :
    (name t : Text)
    → IsName name
    → Begins t
    → handle_message name t []
      ≡ some (record { channel_id = none; username = some name; msg_id = value 0 t })
handle_message_begun name t h (c, cs, e) = rw e (rw (h.handle, h.lowered) refl)

site_channel-name : (name t : Text) → IsName name → site_channel (name ++ b'/' ∷ t) ≡ none
site_channel-name name t h = rw (not_private name t h, site_channel) refl

site_handle-name :
    (name : Text) (n : ℕ)
    → IsName name
    → site_handle (name ++ (b'/' ∷ decimal n))
      ≡ some (record { channel_id = none; username = some name; msg_id = n })
site_handle-name name n h =
    rw
      (
        run-append is_word name (b'/' ∷ decimal n) h.words refl,
        rest-append is_word name (b'/' ∷ decimal n) h.words refl,
        run-decimal n,
        rest-decimal n,
      )
      (handle_message_begun name (decimal n) h (Begins-decimal n) ∙ rw (value-decimal n) refl)

parse_uri-handle :
    (name : Text) (n : ℕ)
    → IsName name
    → parse_uri (codes "t.me/" ++ (name ++ (b'/' ∷ decimal n)))
      ≡ some (record { channel_id = none; username = some name; msg_id = n })
unfolding parse_uri match_msg match_link_c match_link_user after_site
parse_uri-handle name n h =
    rw (strip_spaceless (codes "t.me/" ++ (name ++ (b'/' ∷ decimal n))) spaceless)
      (rw (site_channel-name name (decimal n) h, site_handle-name name n h) (rw h.not_c refl))
  where
    spaceless : IsSpaceless (codes "t.me/" ++ (name ++ (b'/' ∷ decimal n)))
    spaceless =
        All-append (λ x. is_space x ≡ false) (codes "t.me/") (name ++ (b'/' ∷ decimal n))
          (ground arith)
          (All-append (λ x. is_space x ≡ false) name (b'/' ∷ decimal n)
            (words-IsSpaceless name h.words)
            (refl, IsDigits-IsSpaceless (decimal n) (decimal-IsDigits n)))

-- Whatever form an entry was written in, the uri that its row is given is accepted again, and names
-- the same message.
pub parse_uri-normal_uri :
    (text : Text) (e : Entry) → parse_uri text ≡ some e → parse_uri (normal_uri e) ≡ some e
parse_uri-normal_uri text e h = of_accepted (parse_uri-Accepted text e h)
  where
    of_accepted : Accepted e → parse_uri (normal_uri e) ≡ some e
    of_accepted (inl (c, same)) =
        subst (λ d. parse_uri (normal_uri d) ≡ some d) (sym same) (parse_uri-msg_uri c e.msg_id)
    of_accepted (inr (name, good, same)) =
        subst (λ d. parse_uri (normal_uri d) ≡ some d) (sym same)
          (parse_uri-handle name e.msg_id good)
