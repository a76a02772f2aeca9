-- ===== src/Domains/Verified.antt =====
-- What the handlers of internal/handler/custom_domain.go keep true of the rows, and which domains
-- the public routes serve.
use gaty.Prelude.{
  ℕ, String, Option, none, some, List, [], ◌∷◌, Bool, true, false, not, ◌==◌, str_eq, any,
  any-keep_of_false, keep, ◌≡◌, refl, ap, sym, ◌∙◌, arith, ◌⊎◌, inl, inr, Bool-cases, Option-cases,
  if◌then◌else◌,
}
use mathlib.Core.Path.{subst}
use gaty.Redis.{◌▹◌}
use gaty.Gate.Table.{Table, has_row}
use gaty.Domains as Domains
use gaty.Domains.{
  CustomDomain, DomainResolveResult, is_verified, clashes, find_domain, is_row, has_name,
  verify_row,
}
use gaty.Domains.Handlers.{add_domain, delete_domain, verify_domain}

module _ (P : String → String → Type 0) (gates : Table) where
  -- A row clashes with none after it, its gate exists, and a verified one has its domain and its
  -- challenge related by `P`.
  abbrev pub IsDomains : List CustomDomain → Type 0
  IsDomains [] = Unit
  IsDomains (d ∷ ds) =
      (any (clashes d) ds ≡ false)
      × (has_row d.gate_id gates ≡ true)
      × (is_verified d ≡ true → P d.domain d.dns_challenge_token)
      × IsDomains ds

  keep-IsDomains :
      (q : CustomDomain → Bool) (ds : List CustomDomain) → IsDomains ds → IsDomains (keep q ds)
  keep-IsDomains q [] h = tt
  keep-IsDomains q (d ∷ ds) (new, gate, proved, h) =
      elim (q d) as (λ b. IsDomains (if b then d ∷ keep q ds else keep q ds)) [
        | true ↦ (any-keep_of_false _ q ds new, gate, proved, keep-IsDomains q ds h)
        | false ↦ keep-IsDomains q ds h
      ]

  -- a row that is found is there
  any-find_domain :
      (p q : CustomDomain → Bool) (ds : List CustomDomain) (d : CustomDomain)
      → find_domain p ds ≡ some d
      → q d ≡ true
      → any q ds ≡ true
  unfolding find_domain
  any-find_domain p q [] d h k = ground arith
  any-find_domain p q (e ∷ ds) d h k = ground (arith, any-find_domain p q ds d, ap q)

  -- a verification changes no name
  any-verify_row :
      (i at_ : ℕ) (e : CustomDomain) (ds : List CustomDomain)
      → any (clashes e) (verify_row i at_ ds) ≡ any (clashes e) ds
  any-verify_row i at_ e [] = refl
  any-verify_row i at_ e (d ∷ ds) = ground (arith, any-verify_row i at_ e ds)

  -- and nothing where the row is not there
  verify_row-clashes :
      (i at_ : ℕ) (d : CustomDomain) (ds : List CustomDomain)
      → (d.id == i) ≡ true
      → any (clashes d) ds ≡ false
      → verify_row i at_ ds ≡ ds
  verify_row-clashes i at_ d [] same h = refl
  verify_row-clashes i at_ d (e ∷ ds) same h = ground (arith, verify_row-clashes i at_ d ds)

  find_domain_id :
      (i g : ℕ) (ds : List CustomDomain) (d : CustomDomain)
      → find_domain (is_row i g) ds ≡ some d
      → d.id ≡ i
  unfolding find_domain
  find_domain_id i g [] d h = ground arith
  find_domain_id i g (e ∷ ds) d h = ground (arith, find_domain_id i g ds d)

  found_head :
      (i g : ℕ) (e d : CustomDomain) (ds : List CustomDomain)
      → find_domain (is_row i g) (e ∷ ds) ≡ some d
      → (e.id == i) ≡ true
      → (e.gate_id == g) ≡ true
      → e ≡ d
  unfolding find_domain
  found_head i g e d ds h same found = ground arith

  verify_row-IsDomains :
      (i g at_ : ℕ) (ds : List CustomDomain) (d : CustomDomain)
      → find_domain (is_row i g) ds ≡ some d
      → P d.domain d.dns_challenge_token
      → IsDomains ds
      → IsDomains (verify_row i at_ ds)
  unfolding find_domain
  verify_row-IsDomains i g at_ [] d h k s = tt
  verify_row-IsDomains i g at_ (e ∷ ds) d h k (new, gate, proved, s) =
      elim (Bool-cases (e.id == i)) [
        | inr other ↦ rw other (
          any-verify_row i at_ e ds ∙ new,
          gate,
          proved,
          verify_row-IsDomains i g at_ ds d (ground arith) k s,
        )
        | inl same ↦ rw same (
          any-verify_row i at_ e ds ∙ new,
          gate,
          λ _. elim (Bool-cases (e.gate_id == g)) [
            | inl found ↦
                subst (λ x. P x.domain x.dns_challenge_token)
                  (sym (found_head i g e d ds h same found)) k
            | inr later ↦ absurd (
                ground
                  (arith, any-find_domain (is_row i g) (clashes e) ds d, find_domain_id i g ds d))
          ],
          subst IsDomains (sym (verify_row-clashes i at_ e ds same new)) s,
        )
      ]

  -- What the handlers do to the rows. A look-up that shows a challenge under a domain's name
  -- establishes `P` of them.
  pub data Change (rows : List CustomDomain) : List CustomDomain → Type 0 where
    adds :
        (canonical : String → String) (id now : ℕ) (token : String) (gate_id : ℕ) (domain : String)
        → Change rows (add_domain canonical id now token gate_id domain gates rows).0
    deletes : (gate_id domain_id : ℕ) → Change rows (delete_domain gate_id domain_id rows).0
    verifies :
        (lookup_txt : String → Option (List String)) (now gate_id domain_id : ℕ)
        → ((name token : String) (records : List String)
            → lookup_txt ("_gatie." ▹ name) ≡ some records
            → any (λ t. str_eq t token) records ≡ true
            → P name token)
        → Change rows (verify_domain lookup_txt now gate_id domain_id rows).0

  pub data Reach (rows : List CustomDomain) : List CustomDomain → Type 0 where
    here : Reach rows rows
    after : {mid rows' : List CustomDomain} → Reach rows mid → Change mid rows' → Reach rows rows'

  -- the row of a domain that is added
  abbrev added : (String → String) → ℕ → ℕ → String → ℕ → String → CustomDomain
  added canonical id now token gate_id domain = record {
    id = id;
    gate_id = gate_id;
    domain = canonical domain;
    dns_challenge_token = token;
    verified_at = none;
    created_at = now;
  }

  add_domain-cases :
      (canonical : String → String) (id now : ℕ) (token : String) (gate_id : ℕ) (domain : String)
      (rows : List CustomDomain)
      → ((add_domain canonical id now token gate_id domain gates rows).0 ≡ rows)
        ⊎ (((add_domain canonical id now token gate_id domain gates rows).0
              ≡ added canonical id now token gate_id domain ∷ rows)
            × (any (clashes (added canonical id now token gate_id domain)) rows ≡ false)
            × (has_row gate_id gates ≡ true))
  unfolding add_domain Domains.create
  add_domain-cases canonical id now token gate_id domain rows = ground arith

  delete_domain-cases :
      (gate_id domain_id : ℕ) (rows : List CustomDomain)
      → ((delete_domain gate_id domain_id rows).0 ≡ rows)
        ⊎ ((delete_domain gate_id domain_id rows).0
            ≡ keep (λ d. not (is_row domain_id gate_id d)) rows)
  unfolding delete_domain Domains.delete
  delete_domain-cases gate_id domain_id rows = ground arith

  verify_domain-cases :
      (lookup_txt : String → Option (List String)) (now gate_id domain_id : ℕ)
      (rows : List CustomDomain) (d : CustomDomain) (records : List String)
      → find_domain (is_row domain_id gate_id) rows ≡ some d
      → lookup_txt ("_gatie." ▹ d.domain) ≡ some records
      → ((verify_domain lookup_txt now gate_id domain_id rows).0 ≡ rows)
        ⊎ (((verify_domain lookup_txt now gate_id domain_id rows).0 ≡ verify_row d.id now rows)
            × (any (λ t. str_eq t d.dns_challenge_token) records ≡ true))
  unfolding verify_domain Domains.get_by_id Domains.set_verified
  verify_domain-cases lookup_txt now gate_id domain_id rows d records h k = ground arith

  verify_domain-none :
      (lookup_txt : String → Option (List String)) (now gate_id domain_id : ℕ)
      (rows : List CustomDomain)
      → find_domain (is_row domain_id gate_id) rows ≡ none
      → (verify_domain lookup_txt now gate_id domain_id rows).0 ≡ rows
  unfolding verify_domain Domains.get_by_id
  verify_domain-none lookup_txt now gate_id domain_id rows h = ground arith

  verify_domain-no_answer :
      (lookup_txt : String → Option (List String)) (now gate_id domain_id : ℕ)
      (rows : List CustomDomain) (d : CustomDomain)
      → find_domain (is_row domain_id gate_id) rows ≡ some d
      → lookup_txt ("_gatie." ▹ d.domain) ≡ none
      → (verify_domain lookup_txt now gate_id domain_id rows).0 ≡ rows
  unfolding verify_domain Domains.get_by_id
  verify_domain-no_answer lookup_txt now gate_id domain_id rows d h k = ground arith

  same_rows : {rows rows' : List CustomDomain} → rows' ≡ rows → IsDomains rows → IsDomains rows'
  same_rows e s = subst IsDomains (sym e) s

  Change-IsDomains :
      {rows rows' : List CustomDomain} → Change rows rows' → IsDomains rows → IsDomains rows'
  Change-IsDomains {rows} (adds canonical id now token gate_id domain) s =
      elim (add_domain-cases canonical id now token gate_id domain rows) [
        | inl e ↦ same_rows e s
        | inr (e, new, gate) ↦ same_rows e (new, gate, λ v. absurd (ground (arith, v)), s)
      ]
  Change-IsDomains {rows} (deletes gate_id domain_id) s =
      elim (delete_domain-cases gate_id domain_id rows) [
        | inl e ↦ same_rows e s
        | inr e ↦ same_rows e (keep-IsDomains _ rows s)
      ]
  Change-IsDomains {rows} (verifies lookup_txt now gate_id domain_id sound) s =
      elim (Option-cases (find_domain (is_row domain_id gate_id) rows)) [
        | inl e ↦ same_rows (verify_domain-none lookup_txt now gate_id domain_id rows e) s
        | inr (d, e) ↦ elim (Option-cases (lookup_txt ("_gatie." ▹ d.domain))) [
          | inl k ↦
              same_rows (verify_domain-no_answer lookup_txt now gate_id domain_id rows d e k) s
          | inr (records, k) ↦
              elim (verify_domain-cases lookup_txt now gate_id domain_id rows d records e k) [
                | inl same ↦ same_rows same s
                | inr (changed, shown) ↦ same_rows changed (
                    subst (λ i. IsDomains (verify_row i now rows))
                      (sym (find_domain_id domain_id gate_id rows d e))
                      (verify_row-IsDomains domain_id gate_id now rows d e
                        (sound d.domain d.dns_challenge_token records k shown) s))
              ]
        ]
      ]

  -- Whatever the handlers do with a fixed table of gates, rows stay as follows: no two share an
  -- identifier or a domain, every row's gate exists, and a verified row has its domain and its
  -- challenge in the relation that a look-up which shows the challenge under the domain establishes.
  pub Reach-IsDomains :
      {rows rows' : List CustomDomain} → IsDomains rows → Reach rows rows' → IsDomains rows'
  Reach-IsDomains s here = s
  Reach-IsDomains s (after r c) = Change-IsDomains c (Reach-IsDomains s r)
