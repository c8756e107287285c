-- ===== src/Demo.antt =====
-- src/bin: the two programs that run settlements through the gates and print the decisions.
pub mod Program
pub mod Xvm
pub mod Slice
