-- ===== src/Persona/Known.antt =====
-- `normalize_persona_profiles` always finds a template, and its result is its own normal form.
use boardroom_os.Base.{
  ℕ, String, ◌≡◌, refl, sym, ap, ◌∙◌, Bool, true, false, Option, none, some, List, arith, text_eq,
}
use boardroom_os.Base.Result.{Error, raise, ok, >>=-eq-ok, ok_inj}
use boardroom_os.Base.Dict.{get, Entries, Entries-get}
use boardroom_os.Base.Text.{strip}
use boardroom_os.Persona.Allowed.{
  IsAllowed, templates-IsAllowed, normalize_persona-IsAllowed, normalize_persona-fixed, raw_skill,
  raw_personality, raw_aesthetic,
}
use boardroom_os.Persona.Profiles.{Persona, RawSkill, RawPersonality, RawAesthetic}
use boardroom_os.Persona.Templates.{persona_templates}
use boardroom_os.Persona.Normalize.{
  normalize_string, first_some, legacy_style_template, legacy_preference_template, domain_template,
  get_baseline_persona_template_id, resolve_legacy_template_id, effective_template_id,
  clone_persona_template, normalize_persona, NormalizedPersona, normalize_persona_profiles,
  build_persona_summary, baseline_template_by_role_type,
}

found_persona :
    (o : Option Persona) (e : Error) (p : Persona)
    → (elim o [ none ↦ raise e | some t ↦ ok t ]) ≡ ok p
    → o ≡ some p
found_persona none e p h = absurd (cc)
found_persona (some t) e p h = ap some (ok_inj t p h)

clone-IsAllowed : (id : String) (p : Persona) → clone_persona_template id ≡ ok p → IsAllowed p
unfolding clone_persona_template
clone-IsAllowed id p h =
    Entries-get (λ id p. IsAllowed p) id p persona_templates templates-IsAllowed
      (found_persona (get id persona_templates) _ p h)

-- The text is the id of a template.
abbrev is_known : String → Bool
unfolding get
is_known id = elim (get id persona_templates) [ none ↦ false | some p ↦ true ]

abbrev OnlyKnown : Option String → Type 0
OnlyKnown none = Unit
OnlyKnown (some id) = is_known id ≡ true

first_some-OnlyKnown :
    (x y : Option String) → OnlyKnown x → OnlyKnown y → OnlyKnown (first_some x y)
first_some-OnlyKnown none y h k = k
first_some-OnlyKnown (some id) y h k = h

legacy_style-OnlyKnown : (r : String) (s : List ℕ) → OnlyKnown (legacy_style_template r s)
unfolding legacy_style_template is_known get
legacy_style-OnlyKnown r s = ground arith

legacy_preference-OnlyKnown : (r : String) (s : List ℕ) → OnlyKnown (legacy_preference_template r s)
unfolding legacy_preference_template is_known get
legacy_preference-OnlyKnown r s = ground arith

domain-OnlyKnown : (r : String) (s : List ℕ) → OnlyKnown (domain_template r s)
unfolding domain_template is_known get
domain-OnlyKnown r s = ground arith

or_baseline :
    (o : Option String)
    → ((v : String) → o ≡ some v → is_known v ≡ true)
    → is_known (elim o [ none ↦ "frontend_core_builder" | some w ↦ w ]) ≡ true
unfolding is_known get
or_baseline none f = refl
or_baseline (some v) f = f v refl

baseline_table : Entries (λ role id. is_known id ≡ true) baseline_template_by_role_type
unfolding is_known get
baseline_table = (refl, (refl, (refl, (refl, (refl, (refl, (refl, tt)))))))

baseline-known : (r : String) → is_known (get_baseline_persona_template_id r) ≡ true
unfolding get_baseline_persona_template_id
baseline-known r = or_baseline (get (strip r) baseline_template_by_role_type) (λ v found.
    Entries-get (λ role id. is_known id ≡ true) (strip r) v baseline_template_by_role_type
      baseline_table found)

chosen-known :
    (o : Option String) (r : String)
    → OnlyKnown o
    → is_known (elim o [ some id ↦ id | none ↦ get_baseline_persona_template_id r ]) ≡ true
chosen-known none r h = baseline-known r
chosen-known (some id) r h = h

effective-known :
    (r : String) (s : RawSkill) (q : RawPersonality) (a : RawAesthetic)
    → is_known (effective_template_id r none s q a) ≡ true
unfolding effective_template_id resolve_legacy_template_id
effective-known r s q a = chosen-known _ r (
    first_some-OnlyKnown _ _ (legacy_style-OnlyKnown (strip r) (normalize_string q.style)) (
      first_some-OnlyKnown _ _
        (legacy_preference-OnlyKnown (strip r) (normalize_string a.preference))
        (domain-OnlyKnown (strip r) (normalize_string s.primary_domain))))

known_there :
    (o : Option Persona) (e : Error)
    → elim o [ none ↦ false | some p ↦ true ] ≡ true
    → (p : Persona) × ((elim o [ none ↦ raise e | some t ↦ ok t ]) ≡ ok p)
known_there none e h = absurd (cc)
known_there (some p) e h = (p, refl)

clone-ok : (id : String) → is_known id ≡ true → (p : Persona) × (clone_persona_template id ≡ ok p)
unfolding clone_persona_template is_known get
clone-ok id h = known_there (get id persona_templates) _ h

-- What is returned for a template.
abbrev finished :
    String → Option String → RawSkill → RawPersonality → RawAesthetic → Persona → NormalizedPersona
finished r t s q a base = record {
  persona = normalize_persona s q a base;
  profile_summary = build_persona_summary (normalize_persona s q a base);
  template_id = effective_template_id r t s q a;
}

-- Where it returns, the persona is what a template is made into.
made_from :
    (r : String) (t : Option String) (s : RawSkill) (q : RawPersonality) (a : RawAesthetic)
    (n : NormalizedPersona)
    → normalize_persona_profiles r t s q a ≡ ok n
    → (base : Persona) × IsAllowed base × (n.persona ≡ normalize_persona s q a base)
unfolding normalize_persona_profiles
made_from r t s q a n h =
    let (base, cloned, made) =
      >>=-eq-ok (clone_persona_template (effective_template_id r t s q a))
        (λ base. ok (finished r t s q a base)) h in
    (
      base,
      clone-IsAllowed (effective_template_id r t s q a) base cloned,
      ap (λ (x : NormalizedPersona). x.persona) (sym (ok_inj (finished r t s q a base) n made)),
    )

-- Where it returns, every value of the persona is allowed.
pub normalize_persona_profiles-IsAllowed :
    (r : String) (t : Option String) (s : RawSkill) (q : RawPersonality) (a : RawAesthetic)
    (n : NormalizedPersona)
    → normalize_persona_profiles r t s q a ≡ ok n
    → IsAllowed n.persona
normalize_persona_profiles-IsAllowed r t s q a n h =
    let (base, allowed, made) = made_from r t s q a n h in
    rw made (normalize_persona-IsAllowed s q a base allowed)

-- With no template asked for, `normalize_persona_profiles` returns for every role and every payload,
-- and each value of the persona that it returns is one that its dimension allows.
pub normalize_persona_profiles-ok :
    (r : String) (s : RawSkill) (q : RawPersonality) (a : RawAesthetic)
    → (n : NormalizedPersona) × (normalize_persona_profiles r none s q a ≡ ok n)
      × IsAllowed n.persona
unfolding normalize_persona_profiles
normalize_persona_profiles-ok r s q a =
    let id = effective_template_id r none s q a in
    let (base, cloned) = clone-ok id (effective-known r s q a) in
    (
      finished r none s q a base,
      rw cloned refl,
      normalize_persona-IsAllowed s q a base (clone-IsAllowed id base cloned),
    )

-- A persona that `normalize_persona_profiles` has returned, for any role and template, is returned
-- unchanged when its values are normalised again, for any other role and template.
pub normalize_persona_profiles_idem :
    (r r' : String) (t t' : Option String) (s : RawSkill) (q : RawPersonality) (a : RawAesthetic)
    (n m : NormalizedPersona)
    → normalize_persona_profiles r t s q a ≡ ok n
    → normalize_persona_profiles r' t'
        (raw_skill n.persona.skill_profile)
        (raw_personality n.persona.personality_profile)
        (raw_aesthetic n.persona.aesthetic_profile)
      ≡ ok m
    → m.persona ≡ n.persona
normalize_persona_profiles_idem r r' t t' s q a n m h k =
    let (base, _, made) =
      made_from r' t' (raw_skill n.persona.skill_profile)
        (raw_personality n.persona.personality_profile) (raw_aesthetic n.persona.aesthetic_profile)
        m k in
    made
    ∙ normalize_persona-fixed n.persona base (normalize_persona_profiles-IsAllowed r t s q a n h)
