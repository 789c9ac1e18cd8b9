-- ===== src/Containers.antt =====
-- The containers of libjarl: vector_set.h, vector_map.h, delegate_map.h and
-- delegate_vector_set.h.
pub mod Comp
pub mod VectorSet
pub mod VectorSetLaws
pub mod VectorMap
pub mod VectorMapLaws
pub mod DelegateMap
pub mod DelegateMapLaws
pub mod DelegateSet
pub mod DelegateSetLaws
