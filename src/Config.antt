-- ===== src/Config.antt =====
-- internal/config/config.go: the parsed .shipinator.yaml. A nil pointer is `none`.
pub mod Loading
use shipinator.Common.{String, Bool, Option, List}

pub record BuildOutput : Type 0 where
  pub type : String
  pub path : String
  pub ref : String

pub record BuildStep : Type 0 where
  pub name : String
  pub run : String
  pub outputs : List BuildOutput

pub record BuildConfig : Type 0 where
  pub steps : List BuildStep

pub record TestArtifact : Type 0 where
  pub type : String
  pub path : String

pub record TestStep : Type 0 where
  pub name : String
  pub run : String
  pub parallel : Bool
  pub artifacts : List TestArtifact

pub record TestConfig : Type 0 where
  pub steps : List TestStep

pub record DeployConfig : Type 0 where
  pub artifact : String
  pub target : String
  pub namespace : String

pub record ShipinatorConfig : Type 0 where
  pub build : Option BuildConfig
  pub test : Option TestConfig
  pub deploy : Option DeployConfig
