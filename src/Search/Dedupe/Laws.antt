-- ===== src/Search/Dedupe/Laws.antt =====
-- What `_dedupe_hits` keeps (wks/api/search/_dedupe_hits.py).
use wks.Common.{
  ℕ, ◌≤◌, ◌<◌, String, ◌≡◌, refl, ◌⊎◌, inl, inr, true, false, ◌||◌, List, [], ◌∷◌, ◌++◌, map, arith,
  contains, string_eq, leb, length, length-append, Bool-cases, All, ap, ◌∙◌, sym, append_assoc,
  append-nil, leb→le,
}
use mathlib.Core.List.{map-append}
use wks.Common.Float.{Float}
use wks.Search.Hits.{Hit}
use wks.Search.Dedupe.{dedupe_loop, dedupe_hits, canonical_hit}

-- No text stands in the list twice.
abbrev pub AreDistinct : List String → Type 0
AreDistinct [] = Unit
AreDistinct (x ∷ xs) = (contains xs x ≡ false) × AreDistinct xs

contains-append :
    (xs ys : List String) (a : String) → contains (xs ++ ys) a ≡ (contains xs a || contains ys a)
contains-append [] ys a = refl
contains-append (x ∷ xs) ys a = ground (arith, contains-append xs ys a)

AreDistinct-push :
    (xs : List String) (a : String)
    → AreDistinct xs
    → contains xs a ≡ false
    → AreDistinct (xs ++ a ∷ [])
AreDistinct-push [] a d h = (refl, tt)
AreDistinct-push (x ∷ xs) a (h, d) n =
    (ground (arith, contains-append xs (a ∷ []) x), AreDistinct-push xs a d (ground arith))

module _ (F : Float) (canonical digest : String → String) where
  abbrev pub uris : List (Hit F) → List String
  uris = map (λ (hit : Hit F). hit.uri)

  abbrev pub hashes : List (Hit F) → List String
  hashes = map (λ (hit : Hit F). digest hit.text)

  -- The sets of the loop hold what the list of kept hits shows.
  pub record IsDeduped (k : ℕ) (deduped : List (Hit F)) : Type 0 where
    pub distinct_uris : AreDistinct (uris deduped)
    pub distinct_hashes : AreDistinct (hashes deduped)
    pub short : length deduped ≤ k

  -- A hit is represented: its address or its text is among the kept ones.
  abbrev pub IsKnown : List (Hit F) → Hit F → Type 0
  IsKnown deduped hit =
      (contains (uris deduped) (canonical hit.uri) ≡ true)
      ⊎ (contains (hashes deduped) (digest hit.text) ≡ true)

  -- The sets of the loop agree with the hits that it has kept.
  record Tracks (deduped : List (Hit F)) (seen_uris seen_hashes : List String) : Type 0 where
    same_uris : (a : String) → contains seen_uris a ≡ contains (uris deduped) a
    same_hashes : (a : String) → contains seen_hashes a ≡ contains (hashes deduped) a

  uris-push :
      (deduped : List (Hit F)) (hit : Hit F)
      → uris (deduped ++ canonical_hit F canonical digest hit ∷ [])
        ≡ uris deduped ++ canonical hit.uri ∷ []
  uris-push [] hit = refl
  uris-push (x ∷ deduped) hit = ap (◌∷◌ x.uri) (uris-push deduped hit)

  hashes-push :
      (deduped : List (Hit F)) (hit : Hit F)
      → hashes (deduped ++ canonical_hit F canonical digest hit ∷ [])
        ≡ hashes deduped ++ digest hit.text ∷ []
  hashes-push [] hit = refl
  hashes-push (x ∷ deduped) hit = ap (◌∷◌ (digest x.text)) (hashes-push deduped hit)

  Tracks-push :
      (deduped : List (Hit F)) (hit : Hit F) (us hs : List String)
      → Tracks deduped us hs
      → Tracks
          (deduped ++ canonical_hit F canonical digest hit ∷ [])
          (canonical hit.uri ∷ us)
          (digest hit.text ∷ hs)
  Tracks-push deduped hit us hs t = record {
    same_uris = λ a.
        rw (uris-push deduped hit) (
          ground (arith, t.same_uris a, contains-append (uris deduped) (canonical hit.uri ∷ []) a));
    same_hashes = λ a. rw (hashes-push deduped hit) (
        ground (arith, t.same_hashes a, contains-append (hashes deduped) (digest hit.text ∷ []) a));
  }

  IsDeduped-push :
      (k : ℕ) (deduped : List (Hit F)) (hit : Hit F)
      → IsDeduped k deduped
      → length deduped < k
      → contains (uris deduped) (canonical hit.uri) ≡ false
      → contains (hashes deduped) (digest hit.text) ≡ false
      → IsDeduped k (deduped ++ canonical_hit F canonical digest hit ∷ [])
  IsDeduped-push k deduped hit d room new_uri new_hash = record {
    distinct_uris =
        rw (uris-push deduped hit) (AreDistinct-push (uris deduped) _ d.distinct_uris new_uri);
    distinct_hashes =
        rw (hashes-push deduped hit)
          (AreDistinct-push (hashes deduped) _ d.distinct_hashes new_hash);
    short = omega (arith, length-append {0} deduped (canonical_hit F canonical digest hit ∷ []));
  }

  dedupe_loop-IsDeduped :
      (k : ℕ) (hits deduped : List (Hit F)) (us hs : List String)
      → IsDeduped k deduped
      → length deduped < k
      → Tracks deduped us hs
      → IsDeduped k (dedupe_loop F canonical digest k hits deduped us hs)
  unfolding dedupe_loop
  dedupe_loop-IsDeduped k [] deduped us hs d room t = d
  dedupe_loop-IsDeduped k (hit ∷ hits) deduped us hs d room t =
      elim (Bool-cases (contains us (canonical hit.uri) || contains hs (digest hit.text))) [
        | inl known ↦ rw known (dedupe_loop-IsDeduped k hits deduped us hs d room t)
        | inr new ↦
            let pushed : IsDeduped k (deduped ++ canonical_hit F canonical digest hit ∷ []) =
              IsDeduped-push k deduped hit d room (ground (arith, t.same_uris (canonical hit.uri)))
                (ground (arith, t.same_hashes (digest hit.text))) in
            elim (Bool-cases
              (leb k (length (deduped ++ canonical_hit F canonical digest hit ∷ [])))) [
                | inl full ↦ rw (new, full) pushed
                | inr more ↦
                    rw (new, more)
                      (dedupe_loop-IsDeduped k hits _ _ _ pushed (ground arith)
                        (Tracks-push deduped hit us hs t))
              ]
      ]

  -- The loop only appends.
  dedupe_loop-append :
      (k : ℕ) (hits deduped : List (Hit F)) (us hs : List String)
      → (more : List (Hit F)) × (dedupe_loop F canonical digest k hits deduped us hs
          ≡ deduped ++ more)
  unfolding dedupe_loop
  dedupe_loop-append k [] deduped us hs = ([], sym (append-nil deduped))
  dedupe_loop-append k (hit ∷ hits) deduped us hs =
      elim (Bool-cases (contains us (canonical hit.uri) || contains hs (digest hit.text))) [
        | inl known ↦ rw known (dedupe_loop-append k hits deduped us hs)
        | inr new ↦
            elim (Bool-cases
              (leb k (length (deduped ++ canonical_hit F canonical digest hit ∷ [])))) [
                | inl full ↦ (canonical_hit F canonical digest hit ∷ [], rw (new, full))
                | inr more ↦
                    let (rest, e) =
                      dedupe_loop-append k hits
                        (deduped ++ canonical_hit F canonical digest hit ∷ [])
                        (canonical hit.uri ∷ us) (digest hit.text ∷ hs) in
                    (
                      canonical_hit F canonical digest hit ∷ rest,
                      rw (new, more)
                          (e
                            ∙ append_assoc deduped (canonical_hit F canonical digest hit ∷ [])
                                rest),
                    )
              ]
      ]

  IsKnown-append :
      (deduped more : List (Hit F)) (hit : Hit F)
      → IsKnown deduped hit
      → IsKnown (deduped ++ more) hit
  IsKnown-append deduped more hit (inl u) = inl (
      rw (map-append (λ (h : Hit F). h.uri) deduped more)
        (ground (arith, contains-append (uris deduped) (uris more) (canonical hit.uri))))
  IsKnown-append deduped more hit (inr h) = inr (
      rw (map-append (λ (x : Hit F). digest x.text) deduped more)
        (ground (arith, contains-append (hashes deduped) (hashes more) (digest hit.text))))

  IsKnown-loop :
      (k : ℕ) (hits deduped : List (Hit F)) (us hs : List String) (hit : Hit F)
      → IsKnown deduped hit
      → IsKnown (dedupe_loop F canonical digest k hits deduped us hs) hit
  IsKnown-loop k hits deduped us hs hit known =
      let (more, e) = dedupe_loop-append k hits deduped us hs in
      rw e (IsKnown-append deduped more hit known)

  IsKnown-push :
      (deduped : List (Hit F)) (hit : Hit F)
      → IsKnown (deduped ++ canonical_hit F canonical digest hit ∷ []) hit
  IsKnown-push deduped hit = inl (
      rw (uris-push deduped hit) (
        ground
          (arith, contains-append (uris deduped) (canonical hit.uri ∷ []) (canonical hit.uri))))

  IsKnown-seen :
      (deduped : List (Hit F)) (us hs : List String) (hit : Hit F)
      → Tracks deduped us hs
      → (contains us (canonical hit.uri) || contains hs (digest hit.text)) ≡ true
      → IsKnown deduped hit
  IsKnown-seen deduped us hs hit t seen = elim (Bool-cases (contains us (canonical hit.uri))) [
    | inl e ↦ inl (sym (t.same_uris (canonical hit.uri)) ∙ e)
    | inr e ↦ inr (sym (t.same_hashes (digest hit.text)) ∙ ground arith)
  ]

  -- A first hit joins the alternative for the rest.
  with_first :
      (k : ℕ) (result hits : List (Hit F)) (hit : Hit F)
      → IsKnown result hit
      → (k ≤ length result) ⊎ All (IsKnown result) hits
      → (k ≤ length result) ⊎ All (IsKnown result) (hit ∷ hits)
  with_first k result hits hit h (inl full) = inl full
  with_first k result hits hit h (inr hs) = inr (h, hs)

  dedupe_loop_complete :
      (k : ℕ) (hits deduped : List (Hit F)) (us hs : List String) (result : List (Hit F))
      → Tracks deduped us hs
      → dedupe_loop F canonical digest k hits deduped us hs ≡ result
      → (k ≤ length result) ⊎ All (IsKnown result) hits
  unfolding dedupe_loop
  dedupe_loop_complete k [] deduped us hs result t e = inr tt
  dedupe_loop_complete k (hit ∷ hits) deduped us hs result t e =
      elim (Bool-cases (contains us (canonical hit.uri) || contains hs (digest hit.text))) [
        | inl known ↦
            let e' : dedupe_loop F canonical digest k hits deduped us hs ≡ result = rw known at e in
            with_first k result hits hit
              (rw e' at
                (IsKnown-loop k hits deduped us hs hit (IsKnown-seen deduped us hs hit t known)))
              (dedupe_loop_complete k hits deduped us hs result t e')
        | inr new ↦
            elim (Bool-cases
              (leb k (length (deduped ++ canonical_hit F canonical digest hit ∷ [])))) [
                | inl full ↦
                    let e' : deduped ++ canonical_hit F canonical digest hit ∷ [] ≡ result =
                      rw (new, full) at e in
                    inl (rw (← e') (leb→le k _ full))
                | inr more ↦
                    let e' : dedupe_loop F canonical digest k hits
                          (deduped ++ canonical_hit F canonical digest hit ∷ [])
                          (canonical hit.uri ∷ us) (digest hit.text ∷ hs)
                        ≡ result =
                      rw (new, more) at e in
                    with_first k result hits hit
                      (rw e' at (
                        IsKnown-loop k hits (deduped ++ canonical_hit F canonical digest hit ∷ [])
                          (canonical hit.uri ∷ us) (digest hit.text ∷ hs) hit
                          (IsKnown-push deduped hit)))
                      (dedupe_loop_complete k hits _ _ _ result (Tracks-push deduped hit us hs t)
                        e')
              ]
      ]

  -- For a limit of one hit at least, the kept hits have no address twice, no text twice, and are at
  -- most `k`; and if they are fewer than `k`, every hit that was given has its address or its text
  -- among them.
  pub dedupe_hits_lem :
      (hits : List (Hit F)) (k : ℕ)
      → 0 < k
      → IsDeduped k (dedupe_hits F canonical digest hits k)
        × ((k ≤ length (dedupe_hits F canonical digest hits k))
            ⊎ All (IsKnown (dedupe_hits F canonical digest hits k)) hits)
  unfolding dedupe_hits
  dedupe_hits_lem hits k h = (
    dedupe_loop-IsDeduped k hits [] [] []
        (record { distinct_uris = tt; distinct_hashes = tt; short = omega arith }) h
        (record { same_uris = λ a. refl; same_hashes = λ a. refl }),
    dedupe_loop_complete k hits [] [] [] _
        (record { same_uris = λ a. refl; same_hashes = λ a. refl }) refl,
  )
