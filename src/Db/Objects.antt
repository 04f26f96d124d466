-- ===== src/Db/Objects.antt =====
-- src/deska/db/Objects.h, Objects.cpp: the description of the scheme.
use deska.Base.Text.{Text}

pub data AttributeType : Type 0 where
  type_identifier type_identifier_set type_string type_int type_double type_bool : AttributeType
  type_ipv4_address type_ipv6_address type_mac_address type_date type_timestamp : AttributeType

pub record KindAttributeDataType : Type 0 where
  pub name : Text
  pub type : AttributeType

pub data ObjectRelationKind : Type 0 where
  relation_embed_into relation_refers_to relation_templatized : ObjectRelationKind
  relation_contains relation_containable relation_invalid : ObjectRelationKind

pub record ObjectRelation : Type 0 where
  pub kind : ObjectRelationKind
  pub target : Text
  pub column : Text
