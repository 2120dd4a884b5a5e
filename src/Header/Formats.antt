-- ===== src/Header/Formats.antt =====
-- The headers with two versions as instances of `Header.Versioned`: the descriptor tables, header
-- lengths and field accessors of CommonStreamHeader.h, AlternativeHeader.h, Crf.h, Rvf.h, acf/Tscf.h,
-- acf/Ntscf.h, aaf/Aaf.h, aaf/Pcm.h and cvf/Cvf.h.
use open_lib.Common.{refl}
use open_lib.Header.Versioned.{VersionedHeader, IsVersioned}
use open_lib.Header.CommonStreamHeader
use open_lib.Header.AlternativeHeader
use open_lib.Control.Tscf
use open_lib.Control.Ntscf
use open_lib.Media.Crf
use open_lib.Media.Aaf
use open_lib.Media.Pcm
use open_lib.Media.Cvf
use open_lib.Media.Rvf

abbrev pub common_stream_header_header : VersionedHeader CommonStreamHeader.CommonStreamHeaderField
common_stream_header_header = record {
  index = CommonStreamHeader.index;
  table_v0 = CommonStreamHeader.table_v0;
  table_v1 = CommonStreamHeader.table_v1;
  header_len_v0 = CommonStreamHeader.header_len_v0;
  header_len_v1 = CommonStreamHeader.header_len_v1;
  get_field = CommonStreamHeader.get_field;
  set_field = CommonStreamHeader.set_field;
}

pub common_stream_header-IsVersioned : IsVersioned common_stream_header_header
unfolding CommonStreamHeader.get_field CommonStreamHeader.get_field_v0
    CommonStreamHeader.get_field_v1 CommonStreamHeader.set_field CommonStreamHeader.set_field_v0
    CommonStreamHeader.set_field_v1 CommonStreamHeader.get_version
common_stream_header-IsVersioned = record {
  is_table_v0 = record { fit = refl; disjoint = refl };
  is_table_v1 = record { fit = refl; disjoint = refl };
  apart_v0 = refl;
  apart_v1 = refl;
  identity_apart_v0 = refl;
  identity_apart_v1 = refl;
  reads = λ host m field. refl;
  writes = λ host m field value. refl;
}

abbrev pub alternative_header_header : VersionedHeader AlternativeHeader.AlternativeHeaderField
alternative_header_header = record {
  index = AlternativeHeader.index;
  table_v0 = AlternativeHeader.table_v0;
  table_v1 = AlternativeHeader.table_v1;
  header_len_v0 = AlternativeHeader.header_len_v0;
  header_len_v1 = AlternativeHeader.header_len_v1;
  get_field = AlternativeHeader.get_field;
  set_field = AlternativeHeader.set_field;
}

pub alternative_header-IsVersioned : IsVersioned alternative_header_header
unfolding AlternativeHeader.get_field AlternativeHeader.get_field_v0 AlternativeHeader.get_field_v1
    AlternativeHeader.set_field AlternativeHeader.set_field_v0 AlternativeHeader.set_field_v1
    AlternativeHeader.get_version
alternative_header-IsVersioned = record {
  is_table_v0 = record { fit = refl; disjoint = refl };
  is_table_v1 = record { fit = refl; disjoint = refl };
  apart_v0 = refl;
  apart_v1 = refl;
  identity_apart_v0 = refl;
  identity_apart_v1 = refl;
  reads = λ host m field. refl;
  writes = λ host m field value. refl;
}

abbrev pub tscf_header : VersionedHeader Tscf.TscfField
tscf_header = record {
  index = Tscf.index;
  table_v0 = Tscf.table_v0;
  table_v1 = Tscf.table_v1;
  header_len_v0 = Tscf.header_len_v0;
  header_len_v1 = Tscf.header_len_v1;
  get_field = Tscf.get_field;
  set_field = Tscf.set_field;
}

pub tscf-IsVersioned : IsVersioned tscf_header
unfolding Tscf.get_field Tscf.get_field_v0 Tscf.get_field_v1 Tscf.set_field Tscf.set_field_v0
    Tscf.set_field_v1 CommonStreamHeader.get_version
tscf-IsVersioned = record {
  is_table_v0 = record { fit = refl; disjoint = refl };
  is_table_v1 = record { fit = refl; disjoint = refl };
  apart_v0 = refl;
  apart_v1 = refl;
  identity_apart_v0 = refl;
  identity_apart_v1 = refl;
  reads = λ host m field. refl;
  writes = λ host m field value. refl;
}

abbrev pub ntscf_header : VersionedHeader Ntscf.NtscfField
ntscf_header = record {
  index = Ntscf.index;
  table_v0 = Ntscf.table_v0;
  table_v1 = Ntscf.table_v1;
  header_len_v0 = Ntscf.header_len_v0;
  header_len_v1 = Ntscf.header_len_v1;
  get_field = Ntscf.get_field;
  set_field = Ntscf.set_field;
}

pub ntscf-IsVersioned : IsVersioned ntscf_header
unfolding Ntscf.get_field Ntscf.get_field_v0 Ntscf.get_field_v1 Ntscf.set_field Ntscf.set_field_v0
    Ntscf.set_field_v1 AlternativeHeader.get_version
ntscf-IsVersioned = record {
  is_table_v0 = record { fit = refl; disjoint = refl };
  is_table_v1 = record { fit = refl; disjoint = refl };
  apart_v0 = refl;
  apart_v1 = refl;
  identity_apart_v0 = refl;
  identity_apart_v1 = refl;
  reads = λ host m field. refl;
  writes = λ host m field value. refl;
}

abbrev pub crf_header : VersionedHeader Crf.CrfField
crf_header = record {
  index = Crf.index;
  table_v0 = Crf.table_v0;
  table_v1 = Crf.table_v1;
  header_len_v0 = Crf.header_len_v0;
  header_len_v1 = Crf.header_len_v1;
  get_field = Crf.get_field;
  set_field = Crf.set_field;
}

pub crf-IsVersioned : IsVersioned crf_header
unfolding Crf.get_field Crf.get_field_v0 Crf.get_field_v1 Crf.set_field Crf.set_field_v0
    Crf.set_field_v1 AlternativeHeader.get_version
crf-IsVersioned = record {
  is_table_v0 = record { fit = refl; disjoint = refl };
  is_table_v1 = record { fit = refl; disjoint = refl };
  apart_v0 = refl;
  apart_v1 = refl;
  identity_apart_v0 = refl;
  identity_apart_v1 = refl;
  reads = λ host m field. refl;
  writes = λ host m field value. refl;
}

abbrev pub aaf_header : VersionedHeader Aaf.AafField
aaf_header = record {
  index = Aaf.index;
  table_v0 = Aaf.table_v0;
  table_v1 = Aaf.table_v1;
  header_len_v0 = Aaf.header_len_v0;
  header_len_v1 = Aaf.header_len_v1;
  get_field = Aaf.get_field;
  set_field = Aaf.set_field;
}

pub aaf-IsVersioned : IsVersioned aaf_header
unfolding Aaf.get_field Aaf.get_field_v0 Aaf.get_field_v1 Aaf.set_field Aaf.set_field_v0
    Aaf.set_field_v1 CommonStreamHeader.get_version
aaf-IsVersioned = record {
  is_table_v0 = record { fit = refl; disjoint = refl };
  is_table_v1 = record { fit = refl; disjoint = refl };
  apart_v0 = refl;
  apart_v1 = refl;
  identity_apart_v0 = refl;
  identity_apart_v1 = refl;
  reads = λ host m field. refl;
  writes = λ host m field value. refl;
}

abbrev pub pcm_header : VersionedHeader Pcm.PcmField
pcm_header = record {
  index = Pcm.index;
  table_v0 = Pcm.table_v0;
  table_v1 = Pcm.table_v1;
  header_len_v0 = Pcm.header_len_v0;
  header_len_v1 = Pcm.header_len_v1;
  get_field = Pcm.get_field;
  set_field = Pcm.set_field;
}

pub pcm-IsVersioned : IsVersioned pcm_header
unfolding Pcm.get_field Pcm.get_field_v0 Pcm.get_field_v1 Pcm.set_field Pcm.set_field_v0
    Pcm.set_field_v1 CommonStreamHeader.get_version
pcm-IsVersioned = record {
  is_table_v0 = record { fit = refl; disjoint = refl };
  is_table_v1 = record { fit = refl; disjoint = refl };
  apart_v0 = refl;
  apart_v1 = refl;
  identity_apart_v0 = refl;
  identity_apart_v1 = refl;
  reads = λ host m field. refl;
  writes = λ host m field value. refl;
}

abbrev pub cvf_header : VersionedHeader Cvf.CvfField
cvf_header = record {
  index = Cvf.index;
  table_v0 = Cvf.table_v0;
  table_v1 = Cvf.table_v1;
  header_len_v0 = Cvf.header_len_v0;
  header_len_v1 = Cvf.header_len_v1;
  get_field = Cvf.get_field;
  set_field = Cvf.set_field;
}

pub cvf-IsVersioned : IsVersioned cvf_header
unfolding Cvf.get_field Cvf.get_field_v0 Cvf.get_field_v1 Cvf.set_field Cvf.set_field_v0
    Cvf.set_field_v1 CommonStreamHeader.get_version
cvf-IsVersioned = record {
  is_table_v0 = record { fit = refl; disjoint = refl };
  is_table_v1 = record { fit = refl; disjoint = refl };
  apart_v0 = refl;
  apart_v1 = refl;
  identity_apart_v0 = refl;
  identity_apart_v1 = refl;
  reads = λ host m field. refl;
  writes = λ host m field value. refl;
}

abbrev pub rvf_header : VersionedHeader Rvf.RvfField
rvf_header = record {
  index = Rvf.index;
  table_v0 = Rvf.table_v0;
  table_v1 = Rvf.table_v1;
  header_len_v0 = Rvf.header_len_v0;
  header_len_v1 = Rvf.header_len_v1;
  get_field = Rvf.get_field;
  set_field = Rvf.set_field;
}

pub rvf-IsVersioned : IsVersioned rvf_header
unfolding Rvf.get_field Rvf.get_field_v0 Rvf.get_field_v1 Rvf.set_field Rvf.set_field_v0
    Rvf.set_field_v1 CommonStreamHeader.get_version
rvf-IsVersioned = record {
  is_table_v0 = record { fit = refl; disjoint = refl };
  is_table_v1 = record { fit = refl; disjoint = refl };
  apart_v0 = refl;
  apart_v1 = refl;
  identity_apart_v0 = refl;
  identity_apart_v1 = refl;
  reads = λ host m field. refl;
  writes = λ host m field value. refl;
}

-- The nine headers with two versions fulfil the interface: in each, the fields of both tables lie in
-- the header of their version, share no bit with one another and none with the subtype and the
-- version, and `GetField` and `SetField` use the table of the PDU's own version.
pub versioned_formats-IsVersioned :
    IsVersioned common_stream_header_header
    × IsVersioned alternative_header_header
    × IsVersioned tscf_header
    × IsVersioned ntscf_header
    × IsVersioned crf_header
    × IsVersioned aaf_header
    × IsVersioned pcm_header
    × IsVersioned cvf_header
    × IsVersioned rvf_header
versioned_formats-IsVersioned = (
  common_stream_header-IsVersioned, alternative_header-IsVersioned, tscf-IsVersioned,
  ntscf-IsVersioned, crf-IsVersioned, aaf-IsVersioned, pcm-IsVersioned, cvf-IsVersioned,
  rvf-IsVersioned,
)
