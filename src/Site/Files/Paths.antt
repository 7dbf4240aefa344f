-- ===== src/Site/Files/Paths.antt =====
-- The files of a site have different paths.
use clearwater_fv_test.Base.{
  ℕ, ◌+◌, ◌≡◌, ◌≢◌, refl, sym, ◌∙◌, inl, inr, false, ◌++◌, append_assoc, append_cancel_left, arith,
  Bool-cases, text_eq, text_eq_iff,
}
use mathlib.Core.List.{append_cancel_right}
use clearwater_fv_test.Text.{Text, codes}
use clearwater_fv_test.Text.Decimal.{decimal, decimal_injective}
use clearwater_fv_test.Text.Integer.{pos, to_string}
use clearwater_fv_test.Site.{
  Site, cluster_settings_file, shared_conf_file, cluster_conf_file, chronos_dir,
}

-- The directory of Chronos instance `k` of a site, and its configuration file.
abbrev pub instance_dir : Site → ℕ → Text
instance_dir s k = chronos_dir s ++ codes "/instance" ++ to_string (pos (k + 1))

abbrev pub local_conf_file : Site → ℕ → Text
local_conf_file s k = (instance_dir s k ++ codes "/conf") ++ codes "/chronos.conf"

pub text_ne : (p q : Text) → p ≢ q → text_eq p q ≡ false
text_ne p q ne = elim (Bool-cases (text_eq p q)) [
  | inl same ↦ absurd (ne ((text_eq_iff p q).0 same))
  | inr other ↦ other
]

-- Two texts that differ from the first byte on which they do not share.
apart : (d x y : Text) → text_eq x y ≡ false → text_eq (d ++ x) (d ++ y) ≡ false
apart d x y h =
    text_ne (d ++ x) (d ++ y) (λ e. cc ((text_eq_iff x y).1 (append_cancel_left d x y e)))

module _ (s : Site) where
  in_chronos :
      (x y : Text) → text_eq x y ≡ false → text_eq (chronos_dir s ++ x) (chronos_dir s ++ y) ≡ false
  in_chronos x y h = apart (chronos_dir s) x y h

  pub shared-cluster_conf : text_eq (shared_conf_file s) (cluster_conf_file s) ≡ false
  shared-cluster_conf = in_chronos _ _ refl

  pub cluster_conf-shared : text_eq (cluster_conf_file s) (shared_conf_file s) ≡ false
  cluster_conf-shared = in_chronos _ _ refl

  pub shared-settings : text_eq (shared_conf_file s) (cluster_settings_file s) ≡ false
  shared-settings =
      rw (append_assoc s.site_dir (codes "/chronos") (codes "/chronos_shared.conf"))
        (apart s.site_dir _ _ refl)

  pub cluster_conf-settings : text_eq (cluster_conf_file s) (cluster_settings_file s) ≡ false
  cluster_conf-settings =
      rw (append_assoc s.site_dir (codes "/chronos") (codes "/chronos_cluster.conf"))
        (apart s.site_dir _ _ refl)

  local-chronos :
      (k : ℕ)
      → local_conf_file s k
        ≡ chronos_dir s ++ (codes "/instance" ++ (decimal (k + 1) ++ codes "/conf/chronos.conf"))
  unfolding to_string
  local-chronos k = simp append_assoc

  pub local-shared : (k : ℕ) → text_eq (local_conf_file s k) (shared_conf_file s) ≡ false
  local-shared k = rw (local-chronos k) (in_chronos _ _ refl)

  pub shared-local : (k : ℕ) → text_eq (shared_conf_file s) (local_conf_file s k) ≡ false
  shared-local k = rw (local-chronos k) (in_chronos _ _ refl)

  pub local-cluster_conf : (k : ℕ) → text_eq (local_conf_file s k) (cluster_conf_file s) ≡ false
  local-cluster_conf k = rw (local-chronos k) (in_chronos _ _ refl)

  pub cluster_conf-local : (k : ℕ) → text_eq (cluster_conf_file s) (local_conf_file s k) ≡ false
  cluster_conf-local k = rw (local-chronos k) (in_chronos _ _ refl)

  pub local-settings : (k : ℕ) → text_eq (local_conf_file s k) (cluster_settings_file s) ≡ false
  local-settings k =
      rw (local-chronos k, append_assoc s.site_dir (codes "/chronos") _) (apart s.site_dir _ _ refl)

  pub local-local : (j k : ℕ) → j ≢ k → text_eq (local_conf_file s j) (local_conf_file s k) ≡ false
  local-local j k ne = text_ne _ _ λ e.
      let tails =
        append_cancel_left (chronos_dir s) _ _ (sym (local-chronos j) ∙ e ∙ local-chronos k) in
      let numbers = append_cancel_left (codes "/instance") _ _ tails in
      ne (
        omega (
          arith,
          decimal_injective (j + 1) (k + 1)
              (append_cancel_right _ _ (codes "/conf/chronos.conf") numbers),
        ))
