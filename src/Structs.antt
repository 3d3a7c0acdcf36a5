-- ===== src/Structs.antt =====
-- src/ref_model/structs.py: messages and the results that the modules hand on. A Python string is
-- the list of its code points.
pub mod Results
pub mod Messages
pub use Results.*
pub use Messages.*
