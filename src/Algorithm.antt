-- ===== src/Algorithm.antt =====
-- src/algorithm.hpp and src/algorithm.cpp: the histogram of an image, and the mapping that gives one
-- image the brightness of the one before it.
pub mod Arithmetic
pub mod Mapping
pub mod Lightness
pub mod Images
pub mod Equalisation
