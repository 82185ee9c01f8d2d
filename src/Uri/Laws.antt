-- ===== src/Uri/Laws.antt =====
-- Addresses made of texts (wks/api/config/URI.py).
use wks.Common.{
  String, ◌<>◌, ◌≡◌, refl, inl, inr, true, Option, none, some, List, arith, Bool-cases, nat_eq,
}
use wks.Common.Text.{starts_with, has_part}
use wks.FilePath.{FilePath, Process, normalize_path, to_string, relative_to}
use mathlib.Core.Bool.{false≢true}
use text.Mathlib.TextLemmas.{cons-append, nil-append}
use wks.Uri.{make_uri, from_path, from_any, relative_text}

starts_with-append :
    (a b start : String) → starts_with a start ≡ true → starts_with (a <> b) start ≡ true
unfolding starts_with
starts_with-append String.[] b String.[] h = refl
starts_with-append String.[] b (String.◌∷◌ d start) h = absurd (false≢true h)
starts_with-append (String.◌∷◌ c a) b String.[] h = refl
starts_with-append (String.◌∷◌ c a) b (String.◌∷◌ d start) h =
    rw cons-append (ground (arith, starts_with-append a b start))

has_part-empty : (b : String) → has_part b "" ≡ true
unfolding has_part starts_with
has_part-empty String.[] = refl
has_part-empty (String.◌∷◌ c b) = refl

has_part-append : (a b part : String) → has_part a part ≡ true → has_part (a <> b) part ≡ true
unfolding has_part
has_part-append String.[] b String.[] h = rw nil-append (has_part-empty b)
has_part-append String.[] b (String.◌∷◌ d part) h = absurd (false≢true h)
has_part-append (String.◌∷◌ c a) b part h = rw cons-append (
    ground (
      arith,
      has_part-append a b part,
      starts_with-append (String.◌∷◌ c a) b part,
      cons-append c a b,
    ))

file_part : (rest : String) → has_part ("file://" <> rest) "://" ≡ true
unfolding has_part starts_with nat_eq
file_part rest = has_part-append "file://" rest "://" refl

vault_part : (rest : String) → has_part ("vault:///" <> rest) "://" ≡ true
unfolding has_part starts_with nat_eq
vault_part rest = has_part-append "vault:///" rest "://" refl

module _ (env : Process) (hostname : String) where
  below_valid :
      (below : Option (List String)) (text : String)
      → has_part
          (elim below [
            | none ↦ from_path env hostname text
            | some parts ↦ "vault:///" <> relative_text env parts
          ])
          "://"
        ≡ true
  unfolding from_path
  below_valid none text = file_part _
  below_valid (some parts) text = vault_part _

  path_valid :
      (vault_path : Option FilePath) (text : String)
      → has_part
          (elim vault_path [
            | none ↦ from_path env hostname (to_string (normalize_path env text))
            | some vault ↦
                elim (relative_to
                  (normalize_path env text)
                  (normalize_path env (to_string vault))) [
                    | none ↦ from_path env hostname (to_string (normalize_path env text))
                    | some below ↦ "vault:///" <> relative_text env below
                  ]
          ])
          "://"
        ≡ true
  unfolding from_path
  path_valid none text = file_part _
  path_valid (some vault) text =
      below_valid (relative_to (normalize_path env text) (normalize_path env (to_string vault)))
        (to_string (normalize_path env text))

  from_any_valid :
      (vault_path : Option FilePath) (text : String)
      → has_part (from_any env hostname vault_path text) "://" ≡ true
  unfolding from_any from_path
  from_any_valid vault_path text = elim (Bool-cases (has_part text "://")) [
    | inl h ↦ rw (h, h) refl
    | inr h ↦ rw h (path_valid vault_path text)
  ]

  kept :
      (vault_path : Option FilePath) (text : String)
      → has_part text "://" ≡ true
      → from_any env hostname vault_path text ≡ text
  unfolding from_any
  kept vault_path text h = rw h refl

  -- What `URI.from_any` makes of a text always passes the check of the constructor, and is not
  -- changed by `from_any`, whatever vault it is asked about then.
  pub from_any_idempotent :
      (vault_path later_vault : Option FilePath) (text : String)
      → (make_uri (from_any env hostname vault_path text)
          ≡ some (from_any env hostname vault_path text))
        × (from_any env hostname later_vault (from_any env hostname vault_path text)
            ≡ from_any env hostname vault_path text)
  from_any_idempotent vault_path later_vault text = (
    unfold make_uri in rw (from_any_valid vault_path text) refl,
    kept later_vault (from_any env hostname vault_path text) (from_any_valid vault_path text),
  )
