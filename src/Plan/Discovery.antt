-- ===== src/Plan/Discovery.antt =====
-- The data that discovery hands on: src/plan/discovery.rs.
use mmat.Prelude.{Bool, Option, List, String}

pub record DiscoveryQuestion : Type 0 where
  pub prompt : String
  pub choices : List String

pub record SubDomainSuggestion : Type 0 where
  pub name : String
  pub description : String

pub record BigPicture : Type 0 where
  pub ready_to_converge : Bool
  pub full_scope : String
  pub outer_boundaries : List String
  pub out_of_scope : List String
  pub design_space : String
  pub divergent_approaches : List String
  pub trade_off_dimensions : List String
  pub prior_art_insights : List String
  pub non_obvious_risks : List String
  pub binding_constraints : List String
  pub open_choices : List String
  pub assistant_message : String
  pub open_questions : List DiscoveryQuestion

pub record DiscoveryOutput : Type 0 where
  pub assistant_message : String
  pub ready_for_solution : Bool
  pub problem_statement : String
  pub goals : List String
  pub constraints : List String
  pub assumptions : List String
  pub risks : List String
  pub notes : List String
  pub recommended_path : String
  pub open_questions : List DiscoveryQuestion
  pub sub_domains : List SubDomainSuggestion
  pub big_picture : Option BigPicture
  pub chosen_approach : String
