-- ===== src/Header/InitFormats.antt =====
-- `Init` of TSCF, NTSCF, CRF, AAF, PCM, CVF and RVF as instances of `Header.Init`. CVF also writes its
-- format field.
use open_lib.Common.{refl, arith, u8, some, none, ℕ_discrete}
use mathlib.Core.Option
use open_lib.Utils.{descriptor_at}
use open_lib.Header.Init.{VersionedInit, IsInit}
use open_lib.Header.Formats.{
  tscf_header, ntscf_header, crf_header, aaf_header, pcm_header, cvf_header, rvf_header,
}
use open_lib.Control.Tscf
use open_lib.Control.Ntscf
use open_lib.Media.Crf
use open_lib.Media.Aaf
use open_lib.Media.Pcm
use open_lib.Media.Cvf
use open_lib.Media.Rvf

abbrev pub tscf_init : VersionedInit tscf_header
tscf_init = record { sv = Tscf.sv; subtype = 5; preset = none; preset_value = 0; init = Tscf.init }

pub tscf-IsInit : IsInit tscf_init
unfolding Tscf.init Tscf.init_v0 Tscf.init_v1 Tscf.init_v0_present Tscf.init_v1_present Tscf.set_sv
    Option.map descriptor_at Tscf.index
tscf-IsInit = record {
  starts =
      λ host m version. elim (ℕ_discrete (u8 version) 1) [ yes e ↦ rw e | no ne ↦ ground arith ];
  null = λ host version. ground arith;
  sv_bit_v0 = refl;
  sv_bit_v1 = refl;
  preset_fits = tt;
  subtype_fits = omega arith;
  long_v0 = omega arith;
  long_v1 = omega arith;
}

abbrev pub ntscf_init : VersionedInit ntscf_header
ntscf_init = record {
  sv = Ntscf.sv;
  subtype = 130;
  preset = none;
  preset_value = 0;
  init = Ntscf.init;
}

pub ntscf-IsInit : IsInit ntscf_init
unfolding Ntscf.init Ntscf.init_v0 Ntscf.init_v1 Ntscf.init_v0_present Ntscf.init_v1_present
    Ntscf.set_sv Option.map descriptor_at Ntscf.index
ntscf-IsInit = record {
  starts =
      λ host m version. elim (ℕ_discrete (u8 version) 1) [ yes e ↦ rw e | no ne ↦ ground arith ];
  null = λ host version. ground arith;
  sv_bit_v0 = refl;
  sv_bit_v1 = refl;
  preset_fits = tt;
  subtype_fits = omega arith;
  long_v0 = omega arith;
  long_v1 = omega arith;
}

abbrev pub crf_init : VersionedInit crf_header
crf_init = record { sv = Crf.sv; subtype = 4; preset = none; preset_value = 0; init = Crf.init }

pub crf-IsInit : IsInit crf_init
unfolding Crf.init Crf.init_v0 Crf.init_v1 Crf.init_v0_present Crf.init_v1_present Crf.set_sv
    Option.map descriptor_at Crf.index
crf-IsInit = record {
  starts =
      λ host m version. elim (ℕ_discrete (u8 version) 1) [ yes e ↦ rw e | no ne ↦ ground arith ];
  null = λ host version. ground arith;
  sv_bit_v0 = refl;
  sv_bit_v1 = refl;
  preset_fits = tt;
  subtype_fits = omega arith;
  long_v0 = omega arith;
  long_v1 = omega arith;
}

abbrev pub aaf_init : VersionedInit aaf_header
aaf_init = record { sv = Aaf.sv; subtype = 2; preset = none; preset_value = 0; init = Aaf.init }

pub aaf-IsInit : IsInit aaf_init
unfolding Aaf.init Aaf.init_v0 Aaf.init_v1 Aaf.init_v0_present Aaf.init_v1_present Aaf.set_sv
    Option.map descriptor_at Aaf.index
aaf-IsInit = record {
  starts =
      λ host m version. elim (ℕ_discrete (u8 version) 1) [ yes e ↦ rw e | no ne ↦ ground arith ];
  null = λ host version. ground arith;
  sv_bit_v0 = refl;
  sv_bit_v1 = refl;
  preset_fits = tt;
  subtype_fits = omega arith;
  long_v0 = omega arith;
  long_v1 = omega arith;
}

abbrev pub pcm_init : VersionedInit pcm_header
pcm_init = record { sv = Pcm.sv; subtype = 2; preset = none; preset_value = 0; init = Pcm.init }

pub pcm-IsInit : IsInit pcm_init
unfolding Pcm.init Pcm.init_v0 Pcm.init_v1 Pcm.init_v0_present Pcm.init_v1_present Pcm.set_sv
    Option.map descriptor_at Pcm.index
pcm-IsInit = record {
  starts =
      λ host m version. elim (ℕ_discrete (u8 version) 1) [ yes e ↦ rw e | no ne ↦ ground arith ];
  null = λ host version. ground arith;
  sv_bit_v0 = refl;
  sv_bit_v1 = refl;
  preset_fits = tt;
  subtype_fits = omega arith;
  long_v0 = omega arith;
  long_v1 = omega arith;
}

abbrev pub cvf_init : VersionedInit cvf_header
cvf_init = record {
  sv = Cvf.sv;
  subtype = 3;
  preset = some Cvf.format;
  preset_value = 2;
  init = Cvf.init;
}

pub cvf-IsInit : IsInit cvf_init
unfolding Cvf.init Cvf.init_v0 Cvf.init_v1 Cvf.init_v0_present Cvf.init_v1_present Cvf.set_sv
    Cvf.set_format Option.map descriptor_at Cvf.index
cvf-IsInit = record {
  starts =
      λ host m version. elim (ℕ_discrete (u8 version) 1) [ yes e ↦ rw e | no ne ↦ ground arith ];
  null = λ host version. ground arith;
  sv_bit_v0 = refl;
  sv_bit_v1 = refl;
  preset_fits = (refl, refl);
  subtype_fits = omega arith;
  long_v0 = omega arith;
  long_v1 = omega arith;
}

abbrev pub rvf_init : VersionedInit rvf_header
rvf_init = record { sv = Rvf.sv; subtype = 7; preset = none; preset_value = 0; init = Rvf.init }

pub rvf-IsInit : IsInit rvf_init
unfolding Rvf.init Rvf.init_v0 Rvf.init_v1 Rvf.init_v0_present Rvf.init_v1_present Rvf.set_sv
    Option.map descriptor_at Rvf.index
rvf-IsInit = record {
  starts =
      λ host m version. elim (ℕ_discrete (u8 version) 1) [ yes e ↦ rw e | no ne ↦ ground arith ];
  null = λ host version. ground arith;
  sv_bit_v0 = refl;
  sv_bit_v1 = refl;
  preset_fits = tt;
  subtype_fits = omega arith;
  long_v0 = omega arith;
  long_v1 = omega arith;
}
