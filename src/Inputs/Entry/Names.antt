-- ===== src/Inputs/Entry/Names.antt =====
-- Numbers and handles as the patterns of an entry read them.
use paperboy.Base.{
  ℕ, ◌≡◌, ◌∙◌, refl, Bool, true, false, none, some, [], ◌∷◌, ◌++◌, arith, Bool-cases, inl, inr, All,
  All-append, length,
}
use paperboy.Base.Text.{Text, codes, text_eq, is_space}
use paperboy.Base.Decimal.{
  is_digit, value, value-decimal, decimal, decimal-IsDigits, Begins, Begins-decimal,
}
use paperboy.Ids.Uri.{msg_uri}
use paperboy.Ids.Peer.{lower, lower_char}
use paperboy.Inputs.Scan.{
  run, rest, run-All, rest-All, run-append, rest-append, is_alpha, is_word, is_handle, IsSpaceless,
  strip_spaceless, IsDigits-IsSpaceless,
}
use paperboy.Inputs.Entry.{last_number, second_number, two_numbers, match_msg, parse_uri}

pub run-decimal : (n : ℕ) → run is_digit (decimal n) ≡ decimal n
run-decimal n = run-All is_digit (decimal n) (decimal-IsDigits n)

pub rest-decimal : (n : ℕ) → rest is_digit (decimal n) ≡ []
rest-decimal n = rest-All is_digit (decimal n) (decimal-IsDigits n)

pub run_before_slash : (n : ℕ) (t : Text) → run is_digit (decimal n ++ b'/' ∷ t) ≡ decimal n
run_before_slash n t = run-append is_digit (decimal n) (b'/' ∷ t) (decimal-IsDigits n) refl

pub rest_before_slash : (n : ℕ) (t : Text) → rest is_digit (decimal n ++ b'/' ∷ t) ≡ b'/' ∷ t
rest_before_slash n t = rest-append is_digit (decimal n) (b'/' ∷ t) (decimal-IsDigits n) refl

pub last_number_begun :
    (slash : Bool) (a : ℕ) (t : Text) → Begins t → last_number slash a t [] ≡ some (a, value 0 t)
last_number_begun slash a t (c, cs, e) = rw e refl

pub second_number_begun :
    (slash : Bool) (s t : Text)
    → Begins s
    → second_number slash s (b'/' ∷ t)
      ≡ last_number slash (value 0 s) (run is_digit t) (rest is_digit t)
second_number_begun slash s t (c, cs, e) = rw e refl

pub two_numbers-decimal :
    (slash : Bool) (c n : ℕ) → two_numbers slash (decimal c ++ (b'/' ∷ decimal n)) ≡ some (c, n)
two_numbers-decimal slash c n =
    rw (run_before_slash c (decimal n), rest_before_slash c (decimal n))
      (second_number_begun slash (decimal c) (decimal n) (Begins-decimal c)
        ∙ rw (run-decimal n, rest-decimal n)
            (last_number_begun slash (value 0 (decimal c)) (decimal n) (Begins-decimal n)
              ∙ rw (value-decimal c, value-decimal n) refl))

pub IsSpaceless-msg_uri : (c n : ℕ) → IsSpaceless (msg_uri c n)
unfolding msg_uri
IsSpaceless-msg_uri c n =
    All-append (λ x. is_space x ≡ false) (codes "tg:msg:") (decimal c ++ (b'/' ∷ decimal n))
      (ground arith)
      (All-append (λ x. is_space x ≡ false) (decimal c) (b'/' ∷ decimal n)
        (IsDigits-IsSpaceless (decimal c) (decimal-IsDigits c))
        (refl, IsDigits-IsSpaceless (decimal n) (decimal-IsDigits n)))

-- The id that `ids.msg_uri` makes is read as its channel and message.
pub parse_uri-msg_uri :
    (c n : ℕ)
    → parse_uri (msg_uri c n) ≡ some (record { channel_id = some c; username = none; msg_id = n })
unfolding parse_uri match_msg
parse_uri-msg_uri c n =
    rw (strip_spaceless (msg_uri c n) (IsSpaceless-msg_uri c n))
      (unfold msg_uri in rw (two_numbers-decimal false c n) refl)

-- A user name that the list keeps.
pub record IsName (name : Text) : Type 0 where
  pub words : All (λ c. is_word c ≡ true) name
  pub handle : is_handle name ≡ true
  pub lowered : lower name ≡ name
  pub not_c : text_eq name (codes "c") ≡ false

pub lower_char_idem : (c : ℕ) → lower_char (lower_char c) ≡ lower_char c
lower_char_idem c = ground arith

pub lower_idem : (t : Text) → lower (lower t) ≡ lower t
lower_idem [] = refl
lower_idem (c ∷ cs) = rw (lower_char_idem c, lower_idem cs) refl

pub word_lower : (c : ℕ) → is_word c ≡ true → is_word (lower_char c) ≡ true
word_lower c h = ground arith

pub words_lower : (t : Text) → All (λ c. is_word c ≡ true) t → All (λ c. is_word c ≡ true) (lower t)
words_lower [] h = tt
words_lower (c ∷ cs) h = (word_lower c h.0, words_lower cs h.1)

pub length-lower : (t : Text) → length (lower t) ≡ length t
length-lower [] = refl
length-lower (c ∷ cs) = rw (length-lower cs) refl

pub alpha_lower : (c : ℕ) → is_alpha c ≡ true → is_alpha (lower_char c) ≡ true
alpha_lower c h = ground arith

pub handle_lower : (t : Text) → is_handle t ≡ true → is_handle (lower t) ≡ true
handle_lower [] h = cc
handle_lower (c ∷ cs) h = ground (arith, alpha_lower c, length-lower cs)

pub run_passes : (p : ℕ → Bool) (t : Text) → All (λ c. p c ≡ true) (run p t)
unfolding run
run_passes p [] = tt
run_passes p (c ∷ cs) = elim (Bool-cases (p c)) [
  | inl pass ↦ rw pass (pass, run_passes p cs)
  | inr fail ↦ rw fail tt
]
