-- ===== src/Triple/SetterLaws.antt =====
-- What setVendor, setOS, setEnvironment and setObjectFormat change: llvm/lib/Support/Triple.cpp.
use toy_riscv.Base.{
  false, ◌==◌, Bool-cases, Text, is_empty, ◌≡◌, ◌≢◌, refl, sym, ap, ◌∙◌, [], inl, inr,
}
use mathlib.Core.List.{append-nil}
use toy_riscv.Triple.Parse.{parse_os}
use toy_riscv.Triple.Types.{
  VendorType, OsType, EnvironmentType, ObjectFormatType, unknown_object_format, coff, elf, goff,
  macho, wasm, xcoff,
}
use toy_riscv.Triple.Host.{Host}
use toy_riscv.Triple.Names.{
  get_vendor_type_name, get_os_type_name, get_environment_type_name, get_object_format_type_name,
}
use toy_riscv.Triple.Formats.{get_default_format}
use toy_riscv.Triple.NameLaws.{
  parse_vendor-get_vendor_type_name, parse_os-get_os_type_name,
  parse_environment-get_environment_type_name,
}
use toy_riscv.Triple.NameTables.{
  has_dash-get_vendor_type_name, has_dash-get_os_type_name, parse_environment-⌢,
  parse_format-get_object_format_type_name, parse_environment-get_object_format_type_name,
  parse_format-⌢, is_unknown_environment_sound,
}
use toy_riscv.Triple.Target.{
  TargetTriple, first, second, ◌⌢◌, with_default_format, is_unknown_format, parse_triple, create_4,
  get_arch_name, get_vendor_name, get_os_name, get_environment_name, get_os_and_environment_name,
  set_vendor_name, set_os_name, set_environment_name,
}
use toy_riscv.Triple.Accessors.{
  has_dash-first, first-⌢, first_whole, fields-split, fields-join, parse_triple_lem,
  parse_triple-create_4,
}
use toy_riscv.Triple.Setters.{
  set_vendor, set_os, set_environment, format_number, set_object_format, is_unknown_environment,
}

module _ (h : Host) where
  pub set_environment_name-create_4 :
      (t : TargetTriple) (s : Text)
      → set_environment_name h t s
        ≡ create_4 h (get_arch_name t) (get_vendor_name t) (get_os_name t) s
  unfolding set_environment_name get_arch_name get_vendor_name get_os_name
  set_environment_name-create_4 t s =
      parse_triple-create_4 h _ _ _ s (has_dash-first t.text) (has_dash-first (second t.text))
        (has_dash-first (second (second t.text)))

  -- After setVendor on a parsed triple, the vendor is the one that was set, and the architecture and
  -- the operating system are as they were.
  pub set_vendor_lem :
      (x : Text) (k : VendorType)
      → ((set_vendor h (parse_triple h x) k).vendor ≡ k)
        × ((set_vendor h (parse_triple h x) k).arch ≡ (parse_triple h x).arch)
        × ((set_vendor h (parse_triple h x) k).os ≡ (parse_triple h x).os)
  unfolding set_vendor set_vendor_name get_arch_name get_os_and_environment_name
  set_vendor_lem x k =
      let f = fields-split h x in
      let g =
        fields-join h (first x) (get_vendor_type_name k) (second (second x)) (has_dash-first x)
          (has_dash-get_vendor_type_name k) in
      (
        rw f.0 (g.1 ∙ parse_vendor-get_vendor_type_name k),
        rw f.0 (g.0 ∙ sym f.1),
        rw f.0 (g.2 ∙ sym f.3),
      )

  -- setEnvironmentName keeps the parsed architecture, vendor and operating system.
  pub set_environment_name-keeps :
      (x s : Text)
      → ((set_environment_name h (parse_triple h x) s).arch ≡ (parse_triple h x).arch)
        × ((set_environment_name h (parse_triple h x) s).vendor ≡ (parse_triple h x).vendor)
        × ((set_environment_name h (parse_triple h x) s).os ≡ (parse_triple h x).os)
  unfolding create_4 with_default_format
  set_environment_name-keeps x s =
      let f = parse_triple_lem h x in
      rw (set_environment_name-create_4 (parse_triple h x) s) (sym f.1, sym f.2, sym f.3)

  -- After setEnvironment on a parsed triple, the environment is the one that was set, whether or not
  -- the name of the object format is written after it, and the architecture, the vendor and the
  -- operating system are as they were.
  set_environment_lem :
      (x : Text) (k : EnvironmentType)
      → ((set_environment h (parse_triple h x) k).environment ≡ k)
        × ((set_environment h (parse_triple h x) k).arch ≡ (parse_triple h x).arch)
        × ((set_environment h (parse_triple h x) k).vendor ≡ (parse_triple h x).vendor)
        × ((set_environment h (parse_triple h x) k).os ≡ (parse_triple h x).os)
  unfolding set_environment create_4 with_default_format
  set_environment_lem x k =
      let t = parse_triple h x in
      let plain = get_environment_type_name k in
      let long = plain ⌢ get_object_format_type_name t.object_format in
      elim (Bool-cases
        (format_number t.object_format == format_number (get_default_format t.arch t.os))) [
          | inl e ↦ rw e (
            (rw (set_environment_name-create_4 t plain)
                (parse_environment-get_environment_type_name k)),
            (set_environment_name-keeps x plain).0,
            (set_environment_name-keeps x plain).1,
            (set_environment_name-keeps x plain).2,
          )
          | inr e ↦ rw e (
            (rw (set_environment_name-create_4 t long) (parse_environment-⌢ k _)),
            (set_environment_name-keeps x long).0,
            (set_environment_name-keeps x long).1,
            (set_environment_name-keeps x long).2,
          )
        ]

  -- A format that is known is not replaced.
  with_known_format :
      (k : ObjectFormatType) → k ≢ unknown_object_format → is_unknown_format k ≡ false
  with_known_format unknown_object_format p = absurd (p refl)
  with_known_format coff p = refl
  with_known_format elf p = refl
  with_known_format goff p = refl
  with_known_format macho p = refl
  with_known_format wasm p = refl
  with_known_format xcoff p = refl

  -- After setObjectFormat with a known format on a parsed triple, the object format is the one that
  -- was set, and the environment, the architecture, the vendor and the operating system are as they
  -- were.
  set_object_format_lem :
      (x : Text) (k : ObjectFormatType)
      → k ≢ unknown_object_format
      → ((set_object_format h (parse_triple h x) k).object_format ≡ k)
        × ((set_object_format h (parse_triple h x) k).environment ≡ (parse_triple h x).environment)
        × ((set_object_format h (parse_triple h x) k).arch ≡ (parse_triple h x).arch)
        × ((set_object_format h (parse_triple h x) k).vendor ≡ (parse_triple h x).vendor)
        × ((set_object_format h (parse_triple h x) k).os ≡ (parse_triple h x).os)
  unfolding set_object_format create_4 with_default_format
  set_object_format_lem x k p =
      let t = parse_triple h x in
      let plain = get_object_format_type_name k in
      let long = get_environment_type_name t.environment ⌢ plain in
      elim (Bool-cases (is_unknown_environment t.environment)) [
        | inl e ↦ rw e (
          (rw
              (
                set_environment_name-create_4 t plain,
                parse_format-get_object_format_type_name k,
                with_known_format k p,
              )
              refl),
          (rw (set_environment_name-create_4 t plain) (
              parse_environment-get_object_format_type_name k
              ∙ sym (is_unknown_environment_sound t.environment e))),
          (set_environment_name-keeps x plain).0,
          (set_environment_name-keeps x plain).1,
          (set_environment_name-keeps x plain).2,
        )
        | inr e ↦ rw e (
          (rw
              (
                set_environment_name-create_4 t long,
                parse_format-⌢ (get_environment_type_name t.environment) k p,
                with_known_format k p,
              )
              refl),
          (rw (set_environment_name-create_4 t long) (parse_environment-⌢ t.environment _)),
          (set_environment_name-keeps x long).0,
          (set_environment_name-keeps x long).1,
          (set_environment_name-keeps x long).2,
        )
      ]

  pub parse_os-name : (k : OsType) → parse_os (get_os_type_name k) ≡ k
  parse_os-name k = ap parse_os (sym (append-nil _)) ∙ parse_os-get_os_type_name k []

  -- After setOS on a parsed triple, the operating system is the one that was set, whether or not an
  -- environment follows it, and the architecture and the vendor are as they were.
  pub set_os_lem :
      (x : Text) (k : OsType)
      → ((set_os h (parse_triple h x) k).os ≡ k)
        × ((set_os h (parse_triple h x) k).arch ≡ (parse_triple h x).arch)
        × ((set_os h (parse_triple h x) k).vendor ≡ (parse_triple h x).vendor)
  unfolding set_os set_os_name get_arch_name get_vendor_name get_environment_name
  set_os_lem x k =
      let t = parse_triple h x in
      let name = get_os_type_name k in
      let env = second (second (second x)) in
      let f = fields-split h x in
      let join = λ (rest : Text).
        fields-join h (first x) (first (second x)) rest (has_dash-first x)
          (has_dash-first (second x)) in
      elim (Bool-cases (is_empty (get_environment_name t))) [
        | inl e ↦ rw e (
          rw f.0 (
              (join name).2
              ∙ rw (first_whole name (has_dash-get_os_type_name k)) (parse_os-name k)),
          rw f.0 ((join name).0 ∙ sym f.1),
          rw f.0 ((join name).1 ∙ sym f.2),
        )
        | inr e ↦ rw e (
          rw f.0 (
              (join (name ⌢ env)).2
              ∙ rw (first-⌢ name env (has_dash-get_os_type_name k)) (parse_os-name k)),
          rw f.0 ((join (name ⌢ env)).0 ∙ sym f.1),
          rw f.0 ((join (name ⌢ env)).1 ∙ sym f.2),
        )
      ]
