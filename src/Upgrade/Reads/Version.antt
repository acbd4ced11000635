-- ===== src/Upgrade/Reads/Version.antt =====
-- lib/src/PackageUtil.ts, `upgradePackageFile`: the schema version that it reaches.
use datapm.Common.{
  String, Bool, true, false, List, [], ◌∷◌, ◌==◌, ◌≡◌, refl, sym, ap, subst, ◌∙◌, ◌⊎◌, inl, inr,
  Any, All, Result, ok, ◌>>=◌, >>=-eq-ok, ok_injective, if◌then◌else◌, Bool-cases,
}
use datapm.PackageFile.Json.{
  Json, undefined, null, boolean, number, string, array, object, Number, is_null,
}
use datapm.Upgrade.Objects.{read, read_optional, is_text, ends_with, replace, to_text}
use datapm.Upgrade.Early.{schema_url_020, schema_url_030, schema_url_040, upgrade_020, upgrade_030}
use datapm.Upgrade.Middle.{
  schema_url_050, schema_url_060, schema_url_070, schema_url_080, schema_url_081, upgrade_040,
  upgrade_050, upgrade_060, upgrade_070, upgrade_080, rename_patterns,
}
use datapm.Upgrade.ValueTypes.{schema_url_090, upgrade_081}
use datapm.Upgrade.Late.{upgrade_090, upgrade_0315}
use datapm.Upgrade.Chain.{
  at_version, made_if_ends, at_ending, current_schema_url, from_0315, from_090, from_081, from_080,
  from_070, from_060, from_050, from_040, from_030, from_020, from_010, upgrade_package_file,
}
use datapm.Upgrade.Reads.Steps.{
  Reads, read-eq, upgrade_010-Reads, upgrade_020-Reads, upgrade_030-Reads, upgrade_040-Reads,
  upgrade_050-Reads, upgrade_060-Reads, upgrade_070-Reads, upgrade_080-Reads, rename_patterns-reads,
  upgrade_081-Reads, upgrade_090-Reads, upgrade_0315-Reads,
}

-- From the URL `s` the function `f` on package files leads to the URL `g s`.
record Reaches (f : Json → Result Json) (g : String → String) : Type 0 where
  reached :
      (v w : Json) (s : String)
      → read_optional "$schema" v ≡ string s
      → f v ≡ ok w
      → read_optional "$schema" w ≡ string (g s)

abbrev hop : String → String → String → String
hop url next s = if s == url then next else s

abbrev rewrite : String → String → String → String → String
rewrite ending a b s = if ends_with s ending then replace s a b else s

Reaches-bind :
    (f g : Json → Result Json) (h k : String → String)
    → Reaches f h
    → Reaches g k
    → Reaches (λ v. f v >>= g) (λ s. k (h s))
Reaches-bind f g h k rf rg = record {
  reached = λ v w s e r.
      let (u, e₁, e₂) = >>=-eq-ok (f v) g r in rg.reached u w (h s) (rf.reached v u s e e₁) e₂;
}

Reaches-at :
    (url next : String) (f : Json → Result Json)
    → ((v w : Json) → f v ≡ ok w → Reads next "$schema" v w)
    → Reaches (λ v. at_version url v f) (hop url next)
Reaches-at url next f step = record {
  reached = λ v w s e r. by_test v w s e (subst (λ x. chosen x v ≡ ok w) e r);
}
  where
    chosen : Json → Json → Result Json
    chosen x v = let made = f v in if is_text url x then made else ok v

    by_test :
        (v w : Json) (s : String)
        → read_optional "$schema" v ≡ string s
        → chosen (string s) v ≡ ok w
        → read_optional "$schema" w ≡ string (hop url next s)
    by_test v w s e r = elim (Bool-cases (s == url)) [
      | inl t ↦ rw t (step v w (rw t at r))
      | inr n ↦ rw n (ap (read_optional "$schema") (sym (ok_injective (rw n at r))) ∙ e)
    ]

-- The renaming of patterns leaves the version.
Reaches-rename :
    (shared : Bool) → Reaches (λ v. at_version schema_url_081 v (rename_patterns shared)) (λ s. s)
Reaches-rename shared = record {
  reached = λ v w s e r. elim (Bool-cases (is_text schema_url_081 (read_optional "$schema" v))) [
    | inl t ↦ rename_patterns-reads shared v w "$schema" (rw t at r) refl ∙ e
    | inr n ↦ ap (read_optional "$schema") (sym (ok_injective (rw n at r))) ∙ e
  ];
}

Reaches-ending :
    (ending a b : String) (f : Json → Result Json)
    → ((v w : Json)
        → f v ≡ ok w
        → Reads (replace (to_text (read_optional "$schema" v)) a b) "$schema" v w)
    → Reaches (λ v. at_ending ending v f) (rewrite ending a b)
unfolding to_text made_if_ends
Reaches-ending ending a b f step = record {
  reached = λ v w s e r. by_test v w s e (subst (λ x. made_if_ends x ending v f ≡ ok w) e r);
}
  where
    by_test :
        (v w : Json) (s : String)
        → read_optional "$schema" v ≡ string s
        → made_if_ends (string s) ending v f ≡ ok w
        → read_optional "$schema" w ≡ string (rewrite ending a b s)
    by_test v w s e r = elim (Bool-cases (ends_with s ending)) [
      | inl t ↦ rw t (step v w (rw t at r) ∙ ap (λ x. string (replace (to_text x) a b)) e)
      | inr n ↦ rw n (ap (read_optional "$schema") (sym (ok_injective (rw n at r))) ∙ e)
    ]

-- The URL that is reached from each place of the chain.
abbrev after_0315 : String → String
after_0315 s = rewrite "v0.31.5.json" "0.31.5" "0.32.1" s

abbrev after_090 : String → String
after_090 s = after_0315 (rewrite "v0.9.0.json" "0.9.0" "0.31.5" s)

abbrev after_081 : String → String
after_081 s = after_090 (hop schema_url_081 schema_url_090 s)

abbrev after_060 : String → String
after_060 s = after_081 (
    hop schema_url_080 schema_url_081
      (hop schema_url_070 schema_url_080 (hop schema_url_060 schema_url_070 s)))

abbrev pub upgraded_url : String → String
upgraded_url s = after_060 (
    hop schema_url_050 schema_url_060 (
      hop schema_url_040 schema_url_050
        (hop schema_url_030 schema_url_040 (hop schema_url_020 schema_url_030 s))))

Reaches-0315 : Reaches from_0315 after_0315
unfolding from_0315
Reaches-0315 = Reaches-ending "v0.31.5.json" "0.31.5" "0.32.1" upgrade_0315 λ v w e.
    upgrade_0315-Reads v w "$schema" e (record {
      readme_file = refl;
      readme_markdown = refl;
      license_file = refl;
      license_markdown = refl;
    })

Reaches-090 : Reaches from_090 after_090
unfolding from_090
Reaches-090 =
    Reaches-bind (λ v. at_ending "v0.9.0.json" v upgrade_090) from_0315
      (rewrite "v0.9.0.json" "0.9.0" "0.31.5") after_0315
      (Reaches-ending "v0.9.0.json" "0.9.0" "0.31.5" upgrade_090
        λ v w e. upgrade_090-Reads v w "$schema" e refl)
      Reaches-0315

Reaches-081 : (shared : Bool) → Reaches (from_081 shared) after_081
unfolding from_081
Reaches-081 shared =
    Reaches-bind (λ v. at_version schema_url_081 v (rename_patterns shared))
      (λ v. at_version schema_url_081 v upgrade_081 >>= from_090) (λ s. s) after_081
      (Reaches-rename shared)
      (Reaches-bind (λ v. at_version schema_url_081 v upgrade_081) from_090
        (hop schema_url_081 schema_url_090) after_090
        (Reaches-at schema_url_081 schema_url_090 upgrade_081
          λ v w e. upgrade_081-Reads v w "$schema" e refl)
        Reaches-090)

Reaches-080 :
    (shared : Bool)
    → Reaches (from_080 shared) (λ s. after_081 (hop schema_url_080 schema_url_081 s))
unfolding from_080
Reaches-080 shared =
    Reaches-bind (λ v. at_version schema_url_080 v upgrade_080) (from_081 shared)
      (hop schema_url_080 schema_url_081) after_081
      (Reaches-at schema_url_080 schema_url_081 upgrade_080
        λ v w e. upgrade_080-Reads v w "$schema" e refl)
      (Reaches-081 shared)

Reaches-070 :
    (shared : Bool)
    → Reaches
        (from_070 shared)
        (λ s. after_081 (hop schema_url_080 schema_url_081 (hop schema_url_070 schema_url_080 s)))
unfolding from_070
Reaches-070 shared =
    Reaches-bind (λ v. at_version schema_url_070 v upgrade_070) (from_080 shared)
      (hop schema_url_070 schema_url_080) (λ s. after_081 (hop schema_url_080 schema_url_081 s))
      (Reaches-at schema_url_070 schema_url_080 upgrade_070
        λ v w e. upgrade_070-Reads v w "$schema" e refl)
      (Reaches-080 shared)

Reaches-060 : (shared : Bool) → Reaches (from_060 shared) after_060
unfolding from_060
Reaches-060 shared =
    Reaches-bind (λ v. at_version schema_url_060 v upgrade_060) (from_070 shared)
      (hop schema_url_060 schema_url_070)
      (λ s. after_081 (hop schema_url_080 schema_url_081 (hop schema_url_070 schema_url_080 s)))
      (Reaches-at schema_url_060 schema_url_070 upgrade_060
        λ v w e. upgrade_060-Reads v w "$schema" e refl)
      (Reaches-070 shared)

Reaches-050 : Reaches from_050 (λ s. after_060 (hop schema_url_050 schema_url_060 s))
unfolding from_050
Reaches-050 = record {
  reached = λ v.
      let shared = is_text schema_url_050 (read_optional "$schema" v) in
      (Reaches-bind (λ v. at_version schema_url_050 v upgrade_050) (from_060 shared)
          (hop schema_url_050 schema_url_060) after_060
          (Reaches-at schema_url_050 schema_url_060 upgrade_050
            λ v w e. upgrade_050-Reads v w "$schema" e refl)
          (Reaches-060 shared)).reached
        v;
}

Reaches-040 :
    Reaches from_040
      (λ s. after_060 (hop schema_url_050 schema_url_060 (hop schema_url_040 schema_url_050 s)))
unfolding from_040
Reaches-040 =
    Reaches-bind (λ v. at_version schema_url_040 v upgrade_040) from_050
      (hop schema_url_040 schema_url_050) (λ s. after_060 (hop schema_url_050 schema_url_060 s))
      (Reaches-at schema_url_040 schema_url_050 upgrade_040
        λ v w e. upgrade_040-Reads v w "$schema" e refl)
      Reaches-050

module _ (parse_float parse_int : String → Number) where
  Reaches-020 : Reaches (from_020 parse_float parse_int) upgraded_url
  unfolding from_020
  Reaches-020 =
      Reaches-bind (λ v. at_version schema_url_020 v upgrade_020) (from_030 parse_float parse_int)
        (hop schema_url_020 schema_url_030) _
        (Reaches-at schema_url_020 schema_url_030 upgrade_020
          λ v w e. upgrade_020-Reads v w "$schema" e refl refl)
        (unfold from_030 in
          (Reaches-bind (λ v. at_version schema_url_030 v (upgrade_030 parse_float parse_int))
            from_040 (hop schema_url_030 schema_url_040)
            (λ s.
              after_060 (hop schema_url_050 schema_url_060 (hop schema_url_040 schema_url_050 s)))
            (Reaches-at schema_url_030 schema_url_040 (upgrade_030 parse_float parse_int)
              λ v w e. upgrade_030-Reads parse_float parse_int v w "$schema" e refl)
            Reaches-040))

-- The URLs of the schema versions before the current one, and its own.
abbrev pub released_urls : List String
released_urls =
    schema_url_020 ∷ schema_url_030 ∷ schema_url_040 ∷ schema_url_050 ∷ schema_url_060
    ∷ schema_url_070 ∷ schema_url_080 ∷ schema_url_081 ∷ schema_url_090
    ∷ "https://datapm.io/docs/package-file-schema-v0.31.5.json" ∷ current_schema_url ∷ []

-- A package file without `$schema` or with that of a version that was released.
abbrev pub IsReleased : Json → Type 0
IsReleased url = (is_null url ≡ true) ⊎ Any (λ s. url ≡ string s) released_urls

urls_reach : All (λ u. upgraded_url u ≡ current_schema_url) released_urls
unfolding ends_with replace
urls_reach =
    (refl, (refl, (refl, (refl, (refl, (refl, (refl, (refl, (refl, (refl, (refl, tt)))))))))))

released_reach :
    (s : String) (us : List String)
    → All (λ u. upgraded_url u ≡ current_schema_url) us
    → Any (λ u. string s ≡ string u) us
    → upgraded_url s ≡ current_schema_url
released_reach s [] h k = elim k [ ]
released_reach s (u ∷ us) (h, hs) (inl e) = ap upgraded_url (same e) ∙ h
  where
    same : {a b : String} → string a ≡ string b → a ≡ b
    same e = cc
released_reach s (u ∷ us) (h, hs) (inr k) = released_reach s us hs k

module _ (parse_float parse_int : String → Number) where
  -- A text or the first step.
  released_first :
      (v w : Json)
      → IsReleased (read_optional "$schema" v)
      → from_010 (read_optional "$schema" v) v ≡ ok w
      → Any (λ u. read_optional "$schema" w ≡ string u) released_urls
  unfolding from_010
  released_first v w (inl n) e = inl (upgrade_010-Reads v w "$schema" (rw n at e) refl)
  released_first v w (inr k) e =
      subst (λ x. Any (λ u. read_optional "$schema" x ≡ string u) released_urls)
        (ok_injective (rw (not_null (read_optional "$schema" v) released_urls k) at e)) k
    where
      not_null : (x : Json) (us : List String) → Any (λ s. x ≡ string s) us → is_null x ≡ false
      not_null x [] k = elim k [ ]
      not_null x (u ∷ us) (inl e) = rw e refl
      not_null x (u ∷ us) (inr k) = not_null x us k

  url_of :
      (w : Json) (us : List String)
      → Any (λ u. read_optional "$schema" w ≡ string u) us
      → (s : String) × (read_optional "$schema" w ≡ string s) × Any (λ u. string s ≡ string u) us
  url_of w [] k = elim k [ ]
  url_of w (u ∷ us) (inl e) = (u, e, inl refl)
  url_of w (u ∷ us) (inr k) = let (s, e, h) = url_of w us k in (s, e, inr h)

  -- If the upgrade of a package file that has no `$schema`, or that of a released version,
  -- returns, the result has the `$schema` of the current version.
  pub upgrade-current :
      (v w : Json)
      → IsReleased (read_optional "$schema" v)
      → upgrade_package_file parse_float parse_int v ≡ ok w
      → read_optional "$schema" w ≡ string current_schema_url
  unfolding upgrade_package_file
  upgrade-current v w h e =
      let (url, e₁, k₁) =
        >>=-eq-ok (read "$schema" v) (λ url. from_010 url v >>= from_020 parse_float parse_int) e in
      let (u, e₂, k₂) = >>=-eq-ok (from_010 url v) (from_020 parse_float parse_int) k₁ in
      let first = subst (λ x. from_010 x v ≡ ok u) (sym (read-eq "$schema" v url e₁)) e₂ in
      let (s, at, known) = url_of u released_urls (released_first v u h first) in
      (Reaches-020 parse_float parse_int).reached u w s at k₂
      ∙ ap string (released_reach s released_urls urls_reach known)

  text_member :
      (v : Json) (s : String)
      → read_optional "$schema" v ≡ string s
      → read "$schema" v ≡ ok (string s)
  unfolding read read_optional
  text_member (object m) s e = ap ok e
  text_member undefined s e = cc
  text_member null s e = cc
  text_member (boolean b) s e = cc
  text_member (number n) s e = cc
  text_member (string t) s e = cc
  text_member (array vs) s e = cc

  -- A package file of the current version is returned as it is.
  upgrade_of_current :
      (v : Json)
      → read_optional "$schema" v ≡ string current_schema_url
      → upgrade_package_file parse_float parse_int v ≡ ok v
  unfolding upgrade_package_file from_010 from_020 from_030 from_040 from_050 from_060 from_070
      from_080 from_081 from_090 from_0315 made_if_ends ends_with
  upgrade_of_current v e = rw (text_member v current_schema_url e, e, e, e, e, e, e, e, e, e, e, e)

  -- If the upgrade of a package file that has no `$schema`, or that of a released version,
  -- returns, the upgrade of the result returns the result unchanged.
  upgrade_idempotent :
      (v w : Json)
      → IsReleased (read_optional "$schema" v)
      → upgrade_package_file parse_float parse_int v ≡ ok w
      → upgrade_package_file parse_float parse_int w ≡ ok w
  upgrade_idempotent v w h e = upgrade_of_current w (upgrade-current v w h e)
