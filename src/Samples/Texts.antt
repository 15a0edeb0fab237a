-- ===== src/Samples/Texts.antt =====
-- A JSON library for tests that knows two arrays of texts.
use native.Mathlib.Decide.{ℕ_discrete}
use ai_agent_security.Base.{
  Str, bytes, ◌==◌, ◌≡◌, refl, ◌≢◌, ◌⊎◌, inl, inr, true, List, [], ◌∷◌, Option, none, some,
  if◌then◌else◌, Option-cases, arith,
}
use ai_agent_security.Keys.Base64.{encode, char_of}
use ai_agent_security.Platform.{TextsJson, IsFaithfulJson}
use ai_agent_security.Samples.OneToken.{chosen, chosen-yes, chosen-no, chosen_sound}

abbrev pub email_salt : Str
email_salt = bytes "s1"

abbrev pub name_salt : Str
name_salt = bytes "s2"

unfoldable pub email_texts : List Str
email_texts = encode email_salt ∷ bytes "email" ∷ bytes "a@b" ∷ []

unfoldable pub name_texts : List Str
name_texts = encode name_salt ∷ bytes "given_name" ∷ bytes "Ann" ∷ []

abbrev pub email_raw : Str
email_raw = bytes "[1]"

abbrev pub name_raw : Str
name_raw = bytes "[2]"

pub same_texts : Discrete (List Str)
same_texts = hlevel ℕ_discrete

abbrev first_or : Option Str → Option Str → Option Str
first_or none b = b
first_or (some a) b = some a

unfoldable pub sample_json_of_texts : List Str → Option Str
sample_json_of_texts texts =
    first_or (chosen email_raw (same_texts texts email_texts))
      (chosen name_raw (same_texts texts name_texts))

unfoldable pub sample_texts_of_json : Str → Option (List Str)
sample_texts_of_json raw =
    if raw == email_raw then some email_texts else if raw == name_raw then some name_texts else none

abbrev pub texts_json : TextsJson
texts_json = record {
  json_of_texts = sample_json_of_texts;
  texts_of_json = sample_texts_of_json;
  valid_utf8 = λ s. true;
}

pub json-email_texts : sample_json_of_texts email_texts ≡ some email_raw
unfolding sample_json_of_texts
json-email_texts = rw (chosen-yes email_raw (same_texts email_texts email_texts) refl) refl

-- What is written is one of the two.
known :
    (texts : List Str) (raw : Str)
    → sample_json_of_texts texts ≡ some raw
    → ((texts ≡ email_texts) × (raw ≡ email_raw)) ⊎ ((texts ≡ name_texts) × (raw ≡ name_raw))
unfolding sample_json_of_texts
known texts raw h = elim (Option-cases (chosen email_raw (same_texts texts email_texts))) [
  | inr (a, first) ↦
      let (is_texts, is_raw) = chosen_sound email_raw a (same_texts texts email_texts) first in
      inl (is_texts, ground arith)
  | inl other ↦ inr (chosen_sound name_raw raw (same_texts texts name_texts) (ground arith))
]

pub texts_json-IsFaithful : IsFaithfulJson texts_json
unfolding sample_texts_of_json ◌==◌
texts_json-IsFaithful = record {
  texts_of_json-json_of_texts = λ texts raw valid h. elim (known texts raw h) [
    | inl (is_texts, is_raw) ↦ rw (is_texts, is_raw) refl
    | inr (is_texts, is_raw) ↦ rw (is_texts, is_raw) refl
  ];
  json_of_texts-ne-nil = λ texts h. elim (known texts [] h) [
    | inl (is_texts, is_raw) ↦ cc
    | inr (is_texts, is_raw) ↦ cc
  ];
  json_of_texts-AreBytes = λ texts raw h. elim (known texts raw h) [
    | inl (is_texts, is_raw) ↦ rw is_raw (omega arith)
    | inr (is_texts, is_raw) ↦ rw is_raw (omega arith)
  ];
  ascii-valid_utf8 = λ s h. refl;
}

email-ne-name : name_texts ≢ email_texts
unfolding name_texts email_texts encode char_of
email-ne-name e = cc

pub json-name_texts : sample_json_of_texts name_texts ≡ some name_raw
unfolding sample_json_of_texts
json-name_texts =
    rw
      (
        chosen-no email_raw (same_texts name_texts email_texts) email-ne-name,
        chosen-yes name_raw (same_texts name_texts name_texts) refl,
      )
      refl
