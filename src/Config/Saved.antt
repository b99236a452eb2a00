-- ===== src/Config/Saved.antt =====
-- What a saved configuration loads as (internal/config/config.go).
use mathlib.Core.Path.{subst}
use lynx_dns.Common.{
  Sum-cases, Option-cases, ◌≤◌, ◌≡◌, ◌⊎◌, inl, inr, refl, sym, ap, ◌∙◌, arith, false, Option, none,
  some, List, [], ◌∷◌, Bytes, ◌==◌, length, Bool-cases, if_ind,
}
use lynx_dns.Config.{
  FullConfig, default_config, Yaml, Manager, Access, generate_secret, with_secret, read_file,
  save_locked, save, loaded, load, ReadResult, contents, not_exist, unreadable,
}

-- A list that is left out of the file when it is empty.
abbrev pub or_else : List Bytes → List Bytes → List Bytes
or_else [] ys = ys
or_else (x ∷ xs) ys = x ∷ xs

-- What the documentation of yaml says of `omitempty`: an empty list is not written, and what is not
-- in the file stays as it was in the value that is decoded into.
unfoldable pub overlay : FullConfig → FullConfig → FullConfig
overlay c d =
    let g = c.geo in
    let r = c.routing in
    let site = r.geosite in
    let ip = r.geoip in
    record c {
      geo = record g {
        geosite_backup_url = or_else g.geosite_backup_url d.geo.geosite_backup_url;
        geoip_backup_url = or_else g.geoip_backup_url d.geo.geoip_backup_url;
        ad_filter_backup_url = or_else g.ad_filter_backup_url d.geo.ad_filter_backup_url;
      };
      routing = record {
        geosite = record site { ad_filter = or_else site.ad_filter d.routing.geosite.ad_filter };
        geoip = record ip { ad_filter = or_else ip.ad_filter d.routing.geoip.ad_filter };
      };
    }

abbrev pub Decodes : Yaml → FullConfig → Type 0
Decodes y c =
    (text : Bytes) × (y.marshal c ≡ inr text)
    × ((d : FullConfig) → y.unmarshal text d ≡ (overlay c d, none))

-- What the file holds after it is written does not matter to the configuration.
save_locked_config :
    (yaml : Yaml) (access : Access) (m : Manager) → (save_locked yaml access m).0.config ≡ m.config
unfolding save_locked
save_locked_config yaml access m = elim (Sum-cases (yaml.marshal m.config)) [
  | inl (err, e) ↦ rw (e, save_locked) refl
  | inr (text, e) ↦ elim (Option-cases access.write_error) [
    | inl w ↦ rw (e, save_locked) (rw (w, save_locked) refl)
    | inr (err, w) ↦ rw (e, save_locked) (rw (w, save_locked) refl)
  ]
]

-- A configuration that has a secret is kept as it is by Load.
loaded_lem :
    (yaml : Yaml) (access : Access) (random : Bytes) (c : FullConfig) (m : Manager)
    → (length c.api.secret == 0) ≡ false
    → ((loaded yaml access random (c, none) m).0.config ≡ c)
      × ((loaded yaml access random (c, none) m).1 ≡ none)
unfolding loaded with_secret
loaded_lem yaml access random c m secret =
    let kept = save_locked_config yaml access (record m { config = c }) in
    rw (secret, loaded) (rw secret (kept, refl))

-- A configuration with a secret that was saved loads again without an error. It comes back as it
-- was, except that each of the three lists of backup sources, and the advertisement lists of the
-- routing, comes back as the default if it was empty.
pub load-save :
    (yaml : Yaml) (access : Access) (random : Bytes) (m : Manager)
    → Decodes yaml m.config
    → access.read_error ≡ none
    → access.write_error ≡ none
    → (length m.config.api.secret == 0) ≡ false
    → ((load yaml access random (save yaml access m).0).0.config ≡ overlay m.config default_config)
      × ((load yaml access random (save yaml access m).0).1 ≡ none)
unfolding load save save_locked read_file overlay
load-save yaml access random m decodes readable writable secret =
    let c = m.config in
    let (text, encoded, decoded) = decodes in
    let saved = record m { file = some text } in
    let written : (save yaml access m).0 ≡ saved =
      rw (encoded, save_locked) (rw (writable, save_locked) refl) in
    let read : read_file access saved.file ≡ contents text = rw (readable, read_file) refl in
    let l = loaded_lem yaml access random (overlay c default_config) saved secret in
    let r : load yaml access random saved
        ≡ loaded yaml access random (overlay c default_config, none) saved =
      rw (read, load) (ap (λ d. loaded yaml access random d saved) (decoded default_config)) in
    let e = ap (λ s. load yaml access random s) written ∙ r in
    (
      ap (λ (p : Manager × Option Bytes). p.0.config) e ∙ l.0,
      ap (λ (p : Manager × Option Bytes). p.1) e ∙ l.1,
    )

with_secret_lem :
    (random : Bytes) (c : FullConfig)
    → 1 ≤ length random
    → (length (with_secret random c).api.secret == 0) ≡ false
unfolding with_secret
with_secret_lem random c h = elim (Bool-cases (length c.api.secret == 0)) [
  | inr s ↦ rw (s, with_secret) s
  | inl s ↦ rw (s, with_secret) (made random h)
]
  where
    made : (random : Bytes) → 1 ≤ length random → (length (generate_secret random) == 0) ≡ false
    made [] h = absurd (omega arith)
    made (b ∷ bs) h = ground arith

abbrev pub HasSecret : FullConfig → Type 0
HasSecret c = (length c.api.secret == 0) ≡ false

loaded_secret :
    (yaml : Yaml) (access : Access) (random : Bytes) (c : FullConfig) (o : Option Bytes)
    (m : Manager)
    → 1 ≤ length random
    → (loaded yaml access random (c, o) m).1 ≡ none
    → HasSecret (loaded yaml access random (c, o) m).0.config
unfolding loaded
loaded_secret yaml access random c (some err) m h ok = absurd (ground (arith, ok))
loaded_secret yaml access random c none m h ok =
    let next = with_secret random c in
    let changed = record m { config = next } in
    let s = with_secret_lem random c h in
    if_ind (λ (n : Manager). HasSecret n.config) (length next.api.secret == 0) (λ t. s)
      (λ f. subst (λ n. HasSecret n) (sym (save_locked_config yaml access changed)) s)

ReadResult-cases :
    (r : ReadResult)
    → ((err : Bytes) × (r ≡ unreadable err))
      ⊎ ((r ≡ not_exist) ⊎ ((text : Bytes) × (r ≡ contents text)))
ReadResult-cases (unreadable err) = inl (err, refl)
ReadResult-cases not_exist = inr (inl refl)
ReadResult-cases (contents text) = inr (inr (text, refl))

-- After a Load that returns no error the API has a secret, whatever the file holds, even if there is
-- none.
pub load_secret :
    (yaml : Yaml) (access : Access) (random : Bytes) (m : Manager)
    → 1 ≤ length random
    → (load yaml access random m).1 ≡ none
    → HasSecret (load yaml access random m).0.config
unfolding load default_config
load_secret yaml access random m h ok = elim (ReadResult-cases (read_file access m.file)) [
  | inl (err, r) ↦
      let e : load yaml access random m ≡ (m, some err) = rw (r, load) refl in
      absurd (ground (arith, sym (ap (λ (p : Manager × Option Bytes). p.1) e) ∙ ok))
  | inr (inl r) ↦
      let c = with_secret random default_config in
      let e : load yaml access random m ≡ (record m { config = c }, none) = rw (r, load) refl in
      subst (λ (p : Manager × Option Bytes). HasSecret p.0.config) (sym e)
        (with_secret_lem random default_config h)
  | inr (inr (text, r)) ↦
      let d = yaml.unmarshal text default_config in
      let e : load yaml access random m ≡ loaded yaml access random d m = rw (r, load) refl in
      subst (λ (p : Manager × Option Bytes). HasSecret p.0.config) (sym e)
        (loaded_secret yaml access random d.0 d.1 m h
          (sym (ap (λ (p : Manager × Option Bytes). p.1) e) ∙ ok))
]
